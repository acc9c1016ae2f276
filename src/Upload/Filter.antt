-- ===== src/Upload/Filter.antt =====
-- thingsboard_gateway/gateway/device_filter.py, and send_to_storage of
-- thingsboard_gateway/gateway/tb_gateway_service.py, which takes the data of a connector. The latency
-- debug mode is off.
use thingsboard_gateway.Prelude.{
  String, List, [], ◌∷◌, ◌≡◌, refl, ap, Option, none, some, Bool, true, false, ◌>>=◌, Bool-cases,
  inl, inr, ◌⊎◌, if◌then◌else◌,
}
use thingsboard_gateway.Prelude.Eq.{string_eq}
use thingsboard_gateway.Prelude.Dict.{Dict, lookup}
use thingsboard_gateway.Entities.Converted.{ConvertedData}

-- What a connector sends: ConvertedData, or a dict with its device name if it has one.
pub data Data (V : Type 0) : Type 0 where
  converted : ConvertedData V → Data V
  plain : Option String → Data V

-- `data['deviceName']`; KeyError is `none`. ConvertedData has no such item.
unfoldable pub device_name_of : {V : Type 0} → Data V → Option String
device_name_of (converted c) = none
device_name_of (plain name) = name

pub record FilterConfig (P : Type 0) : Type 0 where
  pub deny : Dict String (List P)
  pub allow : Dict String (List P)

pub data Status : Type 0 where
  success forbidden_device failure : Status

-- What becomes of the data by the verdict; an exception is a failure.
unfoldable pub take_valid : {S : Type 0} → (S → Option S) → S → Option Bool → S × Status
take_valid pass_on s none = (s, failure)
take_valid pass_on s (some false) = (s, forbidden_device)
take_valid pass_on s (some true) = elim (pass_on s) [
  | none ↦ (s, failure)
  | some s' ↦ (s', success)
]

-- `fullmatch` is that of the module re.
module _ {P V : Type 0} (fullmatch : P → String → Bool) where
  -- Whether one of the patterns matches; `none` where the name is missed.
  unfoldable pub matches_any : List P → Data V → Option Bool
  matches_any [] data' = some false
  matches_any (p ∷ ps) data' = do
    name ← device_name_of data'
    let later = matches_any ps data'
    (if fullmatch p name then some true else later)

  -- The loop over the connectors of a list.
  unfoldable pub matches_list : String → Dict String (List P) → Data V → Option Bool
  matches_list connector_name [] data' = some false
  matches_list connector_name ((name, ps) ∷ items) data' =
      let later = matches_list connector_name items data' in
      if string_eq.beq name connector_name
      then (do found ← matches_any ps data'; (if found then some true else later))
      else later

  unfoldable pub validate_device : FilterConfig P → String → Data V → Option Bool
  validate_device config connector_name data' = do
    denied ← matches_list connector_name config.deny data'
    (if denied then some false else do
      allowed ← matches_list connector_name config.allow data'
      (if allowed then some true else some true))

  -- A connector without a device filter is not restricted.
  unfoldable pub verdict : Option (FilterConfig P) → String → Data V → Option Bool
  verdict none connector_name data' = some true
  verdict (some config) connector_name data' = validate_device config connector_name data'

  -- `send_to_storage`, with `pass_on` for what takes the data: the report strategy service or the
  -- queue of converted data. An exception of it is `none`.
  unfoldable pub send_to_storage :
      {S : Type 0}
      → (String → Data V → S → Option S)
      → Option (FilterConfig P)
      → String
      → Data V
      → S
      → S × Status
  unfolding take_valid verdict
  send_to_storage pass_on device_filter connector_name data' s =
      take_valid (pass_on connector_name data') s (verdict device_filter connector_name data')

  -- A list with a pattern for the connector looks for the name of ConvertedData, in vain.
  converted_raises :
      (connector_name : String) (p : P) (ps : List P) (items : Dict String (List P))
      (c : ConvertedData V)
      → lookup connector_name items ≡ some (p ∷ ps)
      → matches_list connector_name items (converted c) ≡ none
  unfolding lookup matches_list matches_any device_name_of
  converted_raises connector_name p ps [] c h = cc
  converted_raises connector_name p ps ((name, qs) ∷ items) c h =
      elim (Bool-cases (string_eq.beq name connector_name)) [
        | inl e ↦ let found : qs ≡ p ∷ ps = cc (rw e at h) in rw (e, found) refl
        | inr e ↦ rw e (converted_raises connector_name p ps items c (rw e at h))
      ]

  unlisted :
      (connector_name : String) (items : Dict String (List P)) (data' : Data V)
      → lookup connector_name items ≡ none
      → matches_list connector_name items data' ≡ some false
  unfolding lookup matches_list
  unlisted connector_name [] data' h = refl
  unlisted connector_name ((name, qs) ∷ items) data' h =
      elim (Bool-cases (string_eq.beq name connector_name)) [
        | inl e ↦ absurd (cc (rw e at h))
        | inr e ↦ rw e (unlisted connector_name items data' (rw e at h))
      ]

  -- Where the device filter has a pattern for a connector, to deny devices or, without an entry to
  -- deny, to allow them, none of the connector's ConvertedData is taken: whatever the patterns match,
  -- the status is a failure and nothing is passed on.
  pub filtered_lost :
      {S : Type 0} (pass_on : String → Data V → S → Option S) (config : FilterConfig P)
      (connector_name : String) (p : P) (ps : List P) (c : ConvertedData V) (s : S)
      → ((lookup connector_name config.deny ≡ some (p ∷ ps))
          ⊎ ((lookup connector_name config.deny ≡ none)
              × (lookup connector_name config.allow ≡ some (p ∷ ps))))
      → send_to_storage pass_on (some config) connector_name (converted c) s ≡ (s, failure)
  unfolding send_to_storage validate_device take_valid verdict
  filtered_lost pass_on config connector_name p ps c s (inl denied) =
      let raised : validate_device config connector_name (converted c) ≡ none =
        rw (converted_raises connector_name p ps config.deny c denied) refl in
      ap (take_valid (pass_on connector_name (converted c)) s) raised
  filtered_lost pass_on config connector_name p ps c s (inr (free, allowed)) =
      let raised : validate_device config connector_name (converted c) ≡ none =
        rw
          (
            unlisted connector_name config.deny (converted c) free,
            converted_raises connector_name p ps config.allow c allowed,
          )
          refl in
      ap (take_valid (pass_on connector_name (converted c)) s) raised
