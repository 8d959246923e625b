-- ===== src/Runtime/Xcm/Pallet/Sends.antt =====
-- Who may send messages from this chain.
use swarm_robotics_parachain.Common.{some_inj}
use swarm_robotics_parachain.Common.{
  ℕ, ◌≡◌, refl, sym, ◌∙◌, ap, ◌↔◌, ◌⊎◌, inl, inr, Option, none, some, subst,
}
use swarm_robotics_parachain.Frame.Origin.{Origins}
use swarm_robotics_parachain.Frame.Weight.{Weights}
use swarm_robotics_parachain.Frame.Xcm.{XcmCrates, Barriers}
use swarm_robotics_parachain.Frame.XcmOrigin.{OriginKind, XcmOrigins}
use swarm_robotics_parachain.Frame.XcmRouter.{XcmRouters}
use swarm_robotics_parachain.Runtime.Xcm.Origins.{
  relay_network, local_origin_to_location, transact_dispatch_origin,
}
use swarm_robotics_parachain.Runtime.Xcm.Origins.Authority.{NotRoot, Converts-NotRoot}
use swarm_robotics_parachain.Runtime.Xcm.Origins.Transact.{
  SignsAs, transact_dispatch_origin-Converts, transact_dispatch_origin-SignsAs,
}
use swarm_robotics_parachain.Runtime.Xcm.Pallet.{pallet_xcm_config}

module _ (X : XcmCrates) (O : Origins) (G : XcmOrigins X O) (R : XcmRouters X) (B : Barriers X)
    (W : Weights) (Asset : Type 0) (parachain_id : ℕ) where
  open X use {Location}
  open O use {RuntimeOrigin, AccountId, signed}

  abbrev pub send_xcm_origin : RuntimeOrigin → Option Location
  send_xcm_origin = (pallet_xcm_config X O G R B W Asset parachain_id).send_xcm_origin

  root_is_none :
      (p : Option Location)
      → local_origin_to_location X O G (G.root) ≡ p
      → local_origin_to_location X O G (G.root) ≡ none
  unfolding local_origin_to_location
  root_is_none none e = e
  root_is_none (some l) e =
      let (who, q) = G.signed_to_account_id32_sound (relay_network X O G) (G.root) l e in
      absurd (cc (ap G.caller q, G.caller-root, G.caller-signed who))

  -- An origin sends messages, from some location, if and only if it is signed or root.
  pub send_xcm_origin_iff :
      (o : RuntimeOrigin)
      → ((l : Location) × (send_xcm_origin o ≡ some l))
        ↔ (((who : AccountId) × (o ≡ signed who)) ⊎ (o ≡ G.root))
  unfolding local_origin_to_location
  send_xcm_origin_iff o = (
    λ (l, e). elim ((G.ensure_xcm_origin_iff _ o l).0 e) [
      | inl f ↦ inl (G.signed_to_account_id32_sound (relay_network X O G) o l f)
      | inr (n, (r, h)) ↦ inr r
    ],
    λ h. elim h [
      | inl (who, q) ↦
          let (l, (e, u)) = G.signed_to_account_id32_lem (relay_network X O G) who in
          (l, (G.ensure_xcm_origin_iff _ o l).1 (inl (ap (G.signed_to_account_id32 _) q ∙ e)))
      | inr r ↦ (
        G.here,
        (G.ensure_xcm_origin_iff _ o G.here).1
            (inr (ap (G.signed_to_account_id32 _) r ∙ root_is_none _ refl, (r, refl))),
      )
    ],
  )

  -- A `Transact` that gets an origin can send messages on from this chain if and only if an account
  -- signs for its location, by its account or natively.
  pub transact-send_xcm_origin :
      (l : Location) (k : OriginKind) (o : RuntimeOrigin)
      → transact_dispatch_origin X O G l k ≡ some o
      → ((l' : Location) × (send_xcm_origin o ≡ some l'))
        ↔ ((who : AccountId) × SignsAs X O G l k who)
  transact-send_xcm_origin l k o e =
      let (there, back) = send_xcm_origin_iff o in
      (
        λ h. elim (there h) [
          | inl (who, q) ↦ (who, (transact_dispatch_origin-SignsAs X O G l k who).0 (e ∙ ap some q))
          | inr r ↦ absurd (
              subst (NotRoot X O G l k) (ap G.caller r ∙ G.caller-root) (
                Converts-NotRoot X O G l k o ((transact_dispatch_origin-Converts X O G l k o).0 e)))
        ],
        λ (who, h).
            back
              (inl (who, some_inj (sym e ∙ (transact_dispatch_origin-SignsAs X O G l k who).1 h))),
      )
