-- ===== src/ItemKeys/Errors.antt =====
-- When `_resolve_internal_name` raises.
use scam_screener_api.Base.{
  ◌≡◌, refl, ◌⊎◌, ◌↔◌, Str, codes, str_beq, str_beq_iff, [], ◌∷◌, arith, Bool-cases, inl, inr,
}
use scam_screener_api.Nbt.{Fields}
use scam_screener_api.Nbt.Inventory.{get, stripped, raised}
use scam_screener_api.ItemKeys.{Python, Json, invalid, object, no_object, failed, dashes}
use scam_screener_api.ItemKeys.Names.{
  resolve_pet_name, named_pet, named, normalized_name, resolve_internal_name,
}

module _ (python : Python) where
  open python use {show, upper, json_loads}

  -- A text, not empty, that is JSON other than an object, or that makes `json.loads` raise other
  -- than JSONDecodeError.
  abbrev pub Raises : Str → Type 0
  Raises [] = ⊥
  Raises (c ∷ s) = (json_loads (c ∷ s) ≡ no_object) ⊎ (json_loads (c ∷ s) ≡ failed)

  named_pet-raised :
      (json : Json) → (named_pet python json ≡ raised) ↔ ((json ≡ no_object) ⊎ (json ≡ failed))
  unfolding named_pet
  named_pet-raised invalid = ground arith
  named_pet-raised no_object = (λ _. inl refl, λ _. refl)
  named_pet-raised failed = (λ _. inr refl, λ _. refl)
  named_pet-raised (object fields) = ground arith

  resolve_pet_name-raised : (s : Str) → (resolve_pet_name python s ≡ raised) ↔ Raises s
  unfolding resolve_pet_name
  resolve_pet_name-raised [] = ground arith
  resolve_pet_name-raised (c ∷ s) = named_pet-raised (json_loads (c ∷ s))

  abbrev pet_info : Fields → Str
  pet_info extra_attributes = stripped show (get (codes "petInfo") extra_attributes)

  -- An id, not empty, that normalizes to PET.
  abbrev pub NamesPet : Str → Type 0
  NamesPet [] = ⊥
  NamesPet (c ∷ raw) = dashes (upper (c ∷ raw)) ≡ codes "PET"

  named-raised :
      (normalized : Str) (extra_attributes : Fields)
      → (named python normalized extra_attributes ≡ raised)
        ↔ ((normalized ≡ codes "PET") × Raises (pet_info extra_attributes))
  unfolding named
  named-raised normalized extra_attributes = elim (Bool-cases (str_beq normalized (codes "PET"))) [
    | inl pet ↦ rw pet (
        let same : normalized ≡ codes "PET" = (str_beq_iff normalized (codes "PET")).0 pet in
        let raises = resolve_pet_name-raised (pet_info extra_attributes) in
        (λ e. (same, raises.0 e), λ h. raises.1 h.1))
    | inr other ↦
        rw other (λ e. ground arith, λ h. ground (arith, str_beq_iff normalized (codes "PET")))
  ]

  normalized_name-raised :
      (raw : Str) (extra_attributes : Fields)
      → (normalized_name python raw extra_attributes ≡ raised)
        ↔ (NamesPet raw × Raises (pet_info extra_attributes))
  unfolding normalized_name
  normalized_name-raised [] extra_attributes = ground arith
  normalized_name-raised (c ∷ raw) extra_attributes =
      named-raised (dashes (upper (c ∷ raw))) extra_attributes

  -- Resolving the internal name of an item raises exactly where the item is a pet whose `petInfo`
  -- is not empty and is JSON other than an object, or makes `json.loads` raise other than
  -- JSONDecodeError.
  pub resolve_internal_name-raised :
      (extra_attributes : Fields)
      → (resolve_internal_name python extra_attributes ≡ raised) ↔ (
          NamesPet (stripped show (get (codes "id") extra_attributes))
          × Raises (pet_info extra_attributes))
  unfolding resolve_internal_name
  resolve_internal_name-raised extra_attributes = normalized_name-raised _ extra_attributes
