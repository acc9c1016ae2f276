-- ===== src/Devices/Idle/Chain.antt =====
-- The chain of renamings that the type of a device follows.
use thingsboard_gateway.Prelude.{
  ℕ, zero, suc, ◌<◌, String, ◌≡◌, refl, ◌∙◌, none, some, Option-cases, inl, inr, arith,
}
use thingsboard_gateway.Prelude.Eq.{string_eq}
use thingsboard_gateway.Prelude.Dict.{lookup}
use thingsboard_gateway.Devices.{Service}
use thingsboard_gateway.Devices.Idle.{get_device_type_for_device}

module _ {A : Type 0} where
  -- The device is neither connected nor saved, and has been renamed.
  pub record IsFollowed (name new_name : String) (s : Service A) : Type 0 where
    pub unconnected : lookup name s.connected_devices ≡ none
    pub unsaved : lookup name s.saved_devices ≡ none
    pub renamed : lookup name s.renamed_devices ≡ some new_name

  followed :
      (fuel : ℕ) (name new_name : String) (s : Service A)
      → IsFollowed name new_name s
      → get_device_type_for_device (suc fuel) name s ≡ get_device_type_for_device fuel new_name s
  unfolding get_device_type_for_device
  followed fuel name new_name s h =
      rw (get_device_type_for_device, h.unconnected, h.unsaved, h.renamed) refl

  -- When no chain of renamings returns to a name, which a rank of the names that every renaming
  -- lowers says, the type of every device is found: the recursion is not deeper than the rank.
  pub type_found :
      (rank : String → ℕ) (fuel : ℕ) (name : String) (s : Service A)
      → ((a b : String) → lookup a s.renamed_devices ≡ some b → rank b < rank a)
      → rank name < fuel
      → (type : String) × (get_device_type_for_device fuel name s ≡ some type)
  unfolding get_device_type_for_device
  type_found rank zero name s lower deep = absurd (omega (arith, deep))
  type_found rank (suc fuel) name s lower deep =
      elim (Option-cases (lookup name s.connected_devices)) [
        | inr (info, e) ↦ (info.device_type, rw (get_device_type_for_device, e) refl)
        | inl off ↦ elim (Option-cases (lookup name s.saved_devices)) [
          | inr (info, e) ↦ (info.device_type, rw (get_device_type_for_device, off, e) refl)
          | inl unsaved ↦ elim (Option-cases (lookup name s.renamed_devices)) [
            | inl e ↦ ("default", rw (get_device_type_for_device, off, unsaved, e) refl)
            | inr (new_name, e) ↦
                let less : rank new_name < rank name = lower name new_name e in
                let (type, found) =
                  type_found rank fuel new_name s lower (omega (arith, less, deep)) in
                let h : IsFollowed name new_name s = record {
                  unconnected = off;
                  unsaved = unsaved;
                  renamed = e;
                } in
                (type, followed fuel name new_name s h ∙ found)
          ]
        ]
      ]

  -- Two devices that are neither connected nor saved and have been renamed to each other's names:
  -- the recursion for the type never ends, however deep it may go.
  swapped_forever :
      (fuel : ℕ) (a b : String) (s : Service A)
      → IsFollowed a b s
      → IsFollowed b a s
      → get_device_type_for_device fuel a s ≡ none
  unfolding get_device_type_for_device
  swapped_forever zero a b s ha hb = refl
  swapped_forever (suc fuel) a b s ha hb = followed fuel a b s ha ∙ swapped_forever fuel b a s hb ha
