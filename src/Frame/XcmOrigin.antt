-- ===== src/Frame/XcmOrigin.antt =====
-- What the XCM configuration takes from staging_xcm_builder, cumulus_pallet_xcm and pallet_xcm to tell
-- who a location is: accounts of locations, origins of locations, and tests of origins.
use swarm_robotics_parachain.Common.{
  ℕ, ◌≡◌, ◌↔◌, ◌⊎◌, Bool, true, ◌||◌, Option, none, some, [], ◌∷◌, ◌++◌,
}
use swarm_robotics_parachain.Frame.Origin.{Origins}
use swarm_robotics_parachain.Frame.Xcm.{XcmCrates}

-- `OriginKind`: what sort of origin a `Transact` asks for.
pub data OriginKind : Type 0 where
  native : OriginKind
  sovereign_account : OriginKind
  superuser : OriginKind
  xcm : OriginKind

module _ (X : XcmCrates) (O : Origins) where
  open X use {Location, Junction, BodyId, BodyPart, unpack}
  open O use {RuntimeOrigin, AccountId, signed}

  -- The variants of the runtime's `OriginCaller` that are of use here.
  pub data Caller : Type 0 where
    by_root : Caller
    by_signed : AccountId → Caller
    by_relay : Caller
    by_sibling : ℕ → Caller
    by_xcm : Location → Caller
    by_other : Caller

  abbrev pub LocationConverter : Type 0
  LocationConverter = Location → Option AccountId

  -- `ConvertOrigin`; `none` hands the location back.
  abbrev pub OriginConverter : Type 0
  OriginConverter = Location → OriginKind → Option RuntimeOrigin

  -- `EnsureOrigin`, as a test.
  abbrev pub OriginTest : Type 0
  OriginTest = RuntimeOrigin → Bool

  pub record XcmOrigins : Type 1 where
    pub NetworkId : Type 0
    pub parent : Location
    pub parachain_junction : ℕ → Junction
    pub account_id32 : Option NetworkId → AccountId → Junction
    pub defense : BodyId
    pub voice : BodyPart
    pub parent_account : AccountId
    pub sibling_account : ℕ → AccountId
    pub root : RuntimeOrigin
    pub relay : RuntimeOrigin
    pub sibling_para : ℕ → RuntimeOrigin
    pub xcm_origin : Location → RuntimeOrigin
    pub caller : RuntimeOrigin → Caller
    pub parent_is_preset : LocationConverter
    pub sibling_parachain_converts_via : LocationConverter
    pub account_id32_aliases : Option NetworkId → LocationConverter
    pub sovereign_signed_via_location : LocationConverter → OriginConverter
    pub relay_chain_as_native : RuntimeOrigin → OriginConverter
    pub sibling_parachain_as_native : OriginConverter
    pub signed_account_id32_as_native : Option NetworkId → OriginConverter
    pub xcm_passthrough : OriginConverter
    pub signed_to_account_id32 : Option NetworkId → RuntimeOrigin → Option Location
    -- `EnsureXcmOrigin`, with `Here` for root.
    pub ensure_xcm_origin : (RuntimeOrigin → Option Location) → RuntimeOrigin → Option Location
    pub here : Location
    pub ensure_root : OriginTest
    pub ensure_xcm : (Location → Bool) → OriginTest
    pub is_voice_of_body : Location → BodyId → Location → Bool
    pub either_of_diverse : OriginTest → OriginTest → OriginTest
    pub unpack-parent : unpack parent ≡ (1, [])
    pub caller-root : caller root ≡ by_root
    pub caller-signed : (who : AccountId) → caller (signed who) ≡ by_signed who
    pub caller-relay : caller relay ≡ by_relay
    pub caller-sibling_para : (id : ℕ) → caller (sibling_para id) ≡ by_sibling id
    pub caller-xcm_origin : (l : Location) → caller (xcm_origin l) ≡ by_xcm l
    pub parent_is_preset_iff :
        (l : Location) (who : AccountId)
        → (parent_is_preset l ≡ some who) ↔ ((unpack l ≡ (1, [])) × (who ≡ parent_account))
    pub sibling_parachain_converts_via_iff :
        (l : Location) (who : AccountId)
        → (sibling_parachain_converts_via l ≡ some who)
          ↔ ((id : ℕ) × ((unpack l ≡ (1, parachain_junction id ∷ [])) × (who ≡ sibling_account id)))
    -- A junction without a network, or with the given one.
    pub account_id32_aliases_iff :
        (n : Option NetworkId) (l : Location) (who : AccountId)
        → (account_id32_aliases n l ≡ some who) ↔ (
            (m : Option NetworkId) × ((unpack l ≡ (0, account_id32 m who ∷ []))
              × ((m ≡ none) ⊎ (m ≡ n))))
    pub sovereign_signed_iff :
        (f : LocationConverter) (l : Location) (k : OriginKind) (o : RuntimeOrigin)
        → (sovereign_signed_via_location f l k ≡ some o)
          ↔ ((k ≡ sovereign_account) × ((who : AccountId) × ((f l ≡ some who) × (o ≡ signed who))))
    pub relay_chain_as_native_iff :
        (r : RuntimeOrigin) (l : Location) (k : OriginKind) (o : RuntimeOrigin)
        → (relay_chain_as_native r l k ≡ some o) ↔ ((k ≡ native) × ((unpack l ≡ (1, [])) × (o ≡ r)))
    pub sibling_parachain_as_native_iff :
        (l : Location) (k : OriginKind) (o : RuntimeOrigin)
        → (sibling_parachain_as_native l k ≡ some o) ↔ (
            (k ≡ native)
            × ((id : ℕ) × ((unpack l ≡ (1, parachain_junction id ∷ [])) × (o ≡ sibling_para id))))
    pub signed_account_id32_as_native_iff :
        (n : Option NetworkId) (l : Location) (k : OriginKind) (o : RuntimeOrigin)
        → (signed_account_id32_as_native n l k ≡ some o) ↔ (
            (k ≡ native)
            × ((who : AccountId) × (m : Option NetworkId) × ((unpack l
                    ≡ (0, account_id32 m who ∷ []))
                  × ((m ≡ none) ⊎ (m ≡ n))
                  × (o ≡ signed who))))
    pub xcm_passthrough_iff :
        (l : Location) (k : OriginKind) (o : RuntimeOrigin)
        → (xcm_passthrough l k ≡ some o) ↔ ((k ≡ xcm) × (o ≡ xcm_origin l))
    pub signed_to_account_id32_lem :
        (n : Option NetworkId) (who : AccountId)
        → (l : Location) × ((signed_to_account_id32 n (signed who) ≡ some l)
            × (unpack l ≡ (0, account_id32 n who ∷ [])))
    pub signed_to_account_id32_sound :
        (n : Option NetworkId) (o : RuntimeOrigin) (l : Location)
        → signed_to_account_id32 n o ≡ some l
        → (who : AccountId) × (o ≡ signed who)
    pub ensure_xcm_origin_iff :
        (f : RuntimeOrigin → Option Location) (o : RuntimeOrigin) (l : Location)
        → (ensure_xcm_origin f o ≡ some l)
          ↔ ((f o ≡ some l) ⊎ ((f o ≡ none) × ((o ≡ root) × (l ≡ here))))
    pub ensure_root_iff : (o : RuntimeOrigin) → (ensure_root o ≡ true) ↔ (o ≡ root)
    pub ensure_xcm_iff :
        (f : Location → Bool) (o : RuntimeOrigin)
        → (ensure_xcm f o ≡ true) ↔ ((l : Location) × ((o ≡ xcm_origin l) × (f l ≡ true)))
    pub is_voice_of_body_iff :
        (prefix : Location) (body : BodyId) (l : Location)
        → (is_voice_of_body prefix body l ≡ true)
          ↔ (unpack l ≡ ((unpack prefix).0, (unpack prefix).1 ++ X.plurality body voice ∷ []))
    pub either_of_diverse_lem :
        (f g : OriginTest) (o : RuntimeOrigin) → either_of_diverse f g o ≡ (f o || g o)
