-- ===== src/Host/XcmOrigin.antt =====
-- An instance of `XcmOrigins`.
use swarm_robotics_parachain.Common.{ℕ, ◌+◌, ◌≡◌, refl, ◌↔◌, ◌||◌, Option, some, [], ◌∷◌, ◌++◌}
use swarm_robotics_parachain.Frame.XcmOrigin.{
  Caller, by_root, by_signed, by_relay, by_sibling, by_xcm, XcmOrigins,
}
use swarm_robotics_parachain.Host.Places.{
  Place, HostCaller, root, account, relay, sibling, located, located_origins, signer, shape,
  parent_of, parent_of_iff, sibling_of, sibling_of_iff, account_of, account_of_iff, for_native,
  for_native_iff, for_sovereign, for_sovereign_iff, for_xcm, for_xcm_iff, map_option,
  map_option_iff, native_account, native_account_iff, is_root, is_root_iff, or_here, or_here_iff,
  is_located, is_located_iff, Place-discrete, decided, decided_iff,
}
use swarm_robotics_parachain.Host.Xcm.{plurality, parachain, account_id32, host_xcm}

abbrev pub caller : HostCaller → Caller host_xcm located_origins
caller root = by_root
caller (account a) = by_signed a
caller relay = by_relay
caller (sibling id) = by_sibling id
caller (located l) = by_xcm l

pub passed_iff : {A : Type 0} (a b : A) → (some a ≡ some b) ↔ (b ≡ a)
passed_iff a b = (λ e. cc e, λ h. cc h)

pub signed_place :
    (n : Option (Unit {0})) (o : HostCaller) (l : Place)
    → map_option (λ who. (0, account_id32 n who ∷ [])) (signer o) ≡ some l
    → (who : ℕ) × (o ≡ account who)
signed_place n (account a) l e = (a, refl)
signed_place n root l e = absurd (cc e)
signed_place n relay l e = absurd (cc e)
signed_place n (sibling id) l e = absurd (cc e)
signed_place n (located u) l e = absurd (cc e)

abbrev pub host_xcm_origins : XcmOrigins host_xcm located_origins
host_xcm_origins = record {
  NetworkId = Unit {0};
  parent = (1, []);
  parachain_junction = parachain;
  account_id32 = account_id32;
  defense = 2;
  voice = 0;
  parent_account = 100;
  sibling_account = λ id. 1000 + id;
  root = root;
  relay = relay;
  sibling_para = sibling;
  xcm_origin = located;
  caller = caller;
  parent_is_preset = λ l. parent_of 100 (shape l);
  sibling_parachain_converts_via = λ l. sibling_of (λ id. 1000 + id) (shape l);
  account_id32_aliases = λ n l. account_of n (shape l);
  sovereign_signed_via_location = λ f l k. for_sovereign k (map_option account (f l));
  relay_chain_as_native = λ r l k. for_native k (parent_of r (shape l));
  sibling_parachain_as_native = λ l k. for_native k (sibling_of sibling (shape l));
  signed_account_id32_as_native = λ n l k. for_native k (native_account n l);
  xcm_passthrough = λ l k. for_xcm k (some (located l));
  signed_to_account_id32 = λ n o. map_option (λ who. (0, account_id32 n who ∷ [])) (signer o);
  ensure_xcm_origin = λ f o. or_here o (f o);
  here = (0, []);
  ensure_root = is_root;
  ensure_xcm = is_located;
  is_voice_of_body = λ p b l. decided (Place-discrete l (p.0, p.1 ++ plurality b 0 ∷ []));
  either_of_diverse = λ f g o. f o || g o;
  unpack-parent = refl;
  caller-root = refl;
  caller-signed = λ who. refl;
  caller-relay = refl;
  caller-sibling_para = λ id. refl;
  caller-xcm_origin = λ l. refl;
  parent_is_preset_iff = λ l who. parent_of_iff l 100 (shape l) who refl;
  sibling_parachain_converts_via_iff =
      λ l who. sibling_of_iff l (λ id. 1000 + id) (shape l) who refl;
  account_id32_aliases_iff = λ n l who. account_of_iff n l (shape l) who refl;
  sovereign_signed_iff = λ f l k o. for_sovereign_iff _ _ (map_option_iff account (f l)) k o;
  relay_chain_as_native_iff =
      λ r l k o. for_native_iff _ _ (λ a. parent_of_iff l r (shape l) a refl) k o;
  sibling_parachain_as_native_iff =
      λ l k o. for_native_iff _ _ (λ a. sibling_of_iff l sibling (shape l) a refl) k o;
  signed_account_id32_as_native_iff = λ n l k o. for_native_iff _ _ (native_account_iff n l) k o;
  xcm_passthrough_iff = λ l k o. for_xcm_iff _ _ (passed_iff (located l)) k o;
  signed_to_account_id32_lem = λ n who. ((0, account_id32 n who ∷ []), (refl, refl));
  signed_to_account_id32_sound = signed_place;
  ensure_xcm_origin_iff = λ f o l. or_here_iff o (f o) l;
  ensure_root_iff = is_root_iff;
  ensure_xcm_iff = is_located_iff;
  is_voice_of_body_iff = λ p b l. decided_iff (Place-discrete l (p.0, p.1 ++ plurality b 0 ∷ []));
  either_of_diverse_lem = λ f g o. refl;
}
