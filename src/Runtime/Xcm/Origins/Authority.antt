-- ===== src/Runtime/Xcm/Origins/Authority.antt =====
-- What a `Transact` of another chain may do here: calls of the swarm pallet, and changes of the
-- collators.
use swarm_robotics_parachain.Common.{or_true, some_inj}
use swarm_robotics_parachain.Common.{
  ◌≡◌, refl, sym, ◌∙◌, ap, ◌↔◌, inl, inr, true, some, [], ◌∷◌, ◌++◌, subst,
}
use swarm_robotics_parachain.Frame.Dispatch.{ok}
use swarm_robotics_parachain.Frame.Origin.{Origins}
use swarm_robotics_parachain.Frame.Xcm.{XcmCrates}
use swarm_robotics_parachain.Frame.XcmOrigin.{
  OriginKind, xcm, Caller, by_other, by_root, by_signed, by_relay, by_sibling, by_xcm, XcmOrigins,
}
use swarm_robotics_parachain.Runtime.Xcm.Origins.{
  transact_dispatch_origin, staking_admin_body_id, relay_location, collator_selection_update_origin,
}
use swarm_robotics_parachain.Runtime.Xcm.Origins.Transact.{
  SignsAs, Converts, transact_dispatch_origin-Converts, transact_dispatch_origin-SignsAs,
}
use swarm_robotics_parachain.Swarm.{dispatch}
use swarm_robotics_parachain.Swarm.Errors.{Admits, IsSigned, dispatch-ok_iff}
use swarm_robotics_parachain.Swarm.Types.{Config, Deps, State, Call}

-- The swarm pallet.
module _ (X : XcmCrates) {T : Config} (F : Deps T) (G : XcmOrigins X F.origins) where
  open F.origins use {RuntimeOrigin, AccountId}

  -- A call of the swarm pallet by a `Transact` that gets an origin succeeds if and only if an
  -- account signs for the location, by its account or natively, and the state admits the call.
  pub transact-ok_iff :
      (l : X.Location) (k : OriginKind) (o : RuntimeOrigin) (c : Call T) (s : State F)
      → transact_dispatch_origin X F.origins G l k ≡ some o
      → ((dispatch F o c s).0 ≡ ok tt)
        ↔ (((who : AccountId) × SignsAs X F.origins G l k who) × Admits F s c)
  transact-ok_iff l k o c s e =
      let (there, back) = dispatch-ok_iff F o c s in
      (λ h. (signer (there h).0, (there h).1), λ h. back (is_signed h.0, h.1))
    where
      signer : IsSigned F o → (who : AccountId) × SignsAs X F.origins G l k who
      signer (who, p) =
          (who, (transact_dispatch_origin-SignsAs X F.origins G l k who).0 (e ∙ ap some p))

      is_signed : ((who : AccountId) × SignsAs X F.origins G l k who) → IsSigned F o
      is_signed (who, h) =
          (who, some_inj (sym e ∙ (transact_dispatch_origin-SignsAs X F.origins G l k who).1 h))

-- The collators.
module _ (X : XcmCrates) (O : Origins) (G : XcmOrigins X O) where
  open X use {Location, unpack}
  open O use {RuntimeOrigin, signed}

  -- The staking admin speaks for the relay chain.
  abbrev pub IsStakingAdmin : Location → Type 0
  IsStakingAdmin l = unpack l ≡ (1, X.plurality (staking_admin_body_id X O G) G.voice ∷ [])

  -- What is known of the caller of an origin that a `Transact` gets: it is not root, and it is a
  -- location only if that is asked for.
  abbrev pub NotRoot : Location → OriginKind → Caller X O → Type 0
  NotRoot l k by_root = ⊥
  NotRoot l k (by_signed who) = Unit {0}
  NotRoot l k by_relay = Unit {0}
  NotRoot l k (by_sibling id) = Unit {0}
  NotRoot l k (by_xcm l') = (k ≡ xcm) × (l ≡ l')
  NotRoot l k by_other = Unit {0}

  at_caller :
      (l : Location) (k : OriginKind) {o o' : RuntimeOrigin} {c : Caller X O}
      → o ≡ o'
      → G.caller o' ≡ c
      → NotRoot l k c
      → NotRoot l k (G.caller o)
  at_caller l k q p h = subst (NotRoot l k) (sym (ap (G.caller) q ∙ p)) h

  pub Converts-NotRoot :
      (l : Location) (k : OriginKind) (o : RuntimeOrigin)
      → Converts X O G l k o
      → NotRoot l k (G.caller o)
  Converts-NotRoot l k o (inl (n, (who, (e, q)))) = at_caller l k q (G.caller-signed who) tt
  Converts-NotRoot l k o (inr (inl (n, (p, q)))) = at_caller l k q G.caller-relay tt
  Converts-NotRoot l k o (inr (inr (inl (n, (id, (p, q)))))) =
      at_caller l k q (G.caller-sibling_para id) tt
  Converts-NotRoot l k o (inr (inr (inr (inl (n, (who, m, (u, d, q))))))) =
      at_caller l k q (G.caller-signed who) tt
  Converts-NotRoot l k o (inr (inr (inr (inr (n, q))))) =
      at_caller l k q (G.caller-xcm_origin l) (n, refl)

  -- The voice of the body of the relay chain.
  voice_iff :
      (l : Location)
      → (G.is_voice_of_body (relay_location X O G) (staking_admin_body_id X O G) l ≡ true)
        ↔ IsStakingAdmin l
  voice_iff l =
      subst
        (λ u.
          (G.is_voice_of_body G.parent G.defense l ≡ true)
          ↔ (unpack l ≡ (u.0, u.1 ++ X.plurality G.defense G.voice ∷ [])))
        G.unpack-parent (G.is_voice_of_body_iff G.parent G.defense l)

  may_update :
      (l : Location) (k : OriginKind) (o : RuntimeOrigin)
      → NotRoot l k (G.caller o)
      → (collator_selection_update_origin X O G o ≡ true)
      → (k ≡ xcm) × IsStakingAdmin l
  unfolding collator_selection_update_origin
  may_update l k o n u = elim ((or_true _ _).0 (sym (G.either_of_diverse_lem _ _ o) ∙ u)) [
    | inl r ↦
        absurd (subst (NotRoot l k) (ap (G.caller) ((G.ensure_root_iff o).0 r) ∙ G.caller-root) n)
    | inr x ↦ by_location ((G.ensure_xcm_iff _ o).0 x)
  ]
    where
      by_location :
          ((l' : Location) × ((o ≡ G.xcm_origin l')
              × (G.is_voice_of_body (relay_location X O G) (staking_admin_body_id X O G) l'
                  ≡ true)))
          → (k ≡ xcm) × IsStakingAdmin l
      by_location (l', (q, v)) =
          let (kind, same) = subst (NotRoot l k) (ap (G.caller) q ∙ G.caller-xcm_origin l') n in
          (kind, subst IsStakingAdmin (sym same) ((voice_iff l').0 v))

  -- The origin that a `Transact` gets may change the collators if and only if the `Transact` asks
  -- for the origin of its location, and that is the staking admin of the relay chain.
  pub transact-collator_selection_update_origin :
      (l : Location) (k : OriginKind) (o : RuntimeOrigin)
      → transact_dispatch_origin X O G l k ≡ some o
      → (collator_selection_update_origin X O G o ≡ true) ↔ ((k ≡ xcm) × IsStakingAdmin l)
  unfolding collator_selection_update_origin
  transact-collator_selection_update_origin l k o e =
      let (there, back) = transact_dispatch_origin-Converts X O G l k o in
      (
        may_update l k o (Converts-NotRoot l k o (there e)),
        λ h.
            let at_location =
              (transact_dispatch_origin-Converts X O G l k (G.xcm_origin l)).1
                (inr (inr (inr (inr (h.0, refl))))) in
            let same = some_inj (sym e ∙ at_location) in
            G.either_of_diverse_lem _ _ o
            ∙ (or_true _ _).1 (inr ((G.ensure_xcm_iff _ o).1 (l, (same, (voice_iff l).1 h.1)))),
      )
