-- ===== src/Application/Release.antt =====
-- The last action lets go of the backup, whatever the expanders do.
use tankervision_pdb.Common.{
  ℕ, Bool, true, false, not, Floats, ◌≡◌, ◌⊎◌, inl, inr, ◌==◌, ◌≤◌, if◌then◌else◌, arith, if_rule,
  Bool-cases, sub32, Option, ap, ◌∙◌, refl, subst, sym,
}
use tankervision_pdb.Common.Act.{
  Keeps, Keeps-pure, Keeps-gets, Keeps-if, Keeps-bind, after-continue, pure, call, continue, after,
  modify, gets, ◌>>=◌, ◌>>◌,
}
use tankervision_pdb.PowerManager.State.{PendingAction, is_action, no_action, cut_power}
use tankervision_pdb.Application.State.{
  Application, Parts, power_release, defaults_failed, release_readback_failed,
}
use tankervision_pdb.Application.Output.{Method, ask, tell, hand_over, now, remember_error}
use tankervision_pdb.Application.Outcomes.{hw_succeeded}
use tankervision_pdb.Application.Actions.{
  release, may_release, restart_late, restart_if_released, serve_cut, begin_action, answer_idle,
  dispatch, serve, service_action, final_cleanup_ms,
}

-- `P` holds once the board was told to release the backup, and the clock and the restart leave it alone.
pub record Lasting {F : Floats} (D : Parts F) (P : D.World → Type 0) : Type 0 where
  pub at_release : (w : D.World) → P (D.release_backup_for_shutdown w).1
  pub at_millis : (w : D.World) → P w → P (D.millis w).1
  pub at_restart : (w : D.World) → P w → P (D.restart w)

module _ (F : Floats) (D : Parts F) where
  -- What follows the note on the expanders.
  release_rest : Bool → Method F D (Unit {0})
  release_rest restored = do
    hand_over F D (power_release restored)
    t ← now F D
    modify (λ s. record s { released = true; release_at = t })
    low ← ask F D D.release_backup_for_shutdown
    if low then pure tt else remember_error F D release_readback_failed

module _ {F : Floats} {D : Parts F} {P : D.World → Type 0} (L : Lasting D P) (before : Bool) where
  -- Released by this call, or before it.
  record Released (s : Application F D) : Type 0 where
    pub flag : s.released ≡ true
    pub told : (before ≡ true) ⊎ P s.world

  ended-Released :
      (b : Bool) (s : Application F D)
      → Released s
      → Released (after (if b then pure tt else remember_error F D release_readback_failed) s)
  unfolding pure modify
  ended-Released true s r = r
  ended-Released false s r = record { flag = r.flag; told = r.told }

  release_rest-Released : (b : Bool) (s : Application F D) → Released (after (release_rest F D b) s)
  unfolding release_rest hand_over ask call modify gets ◌>>=◌ continue
  release_rest-Released b s =
      let w = (D.millis (D.millis s.world).1).1 in
      ended-Released _ _ (record { flag = refl; told = inr (L.at_release w) })

  noted-Released :
      (b : Bool) (s : Application F D)
      → Released (
          after
            ((if b then pure tt else remember_error F D defaults_failed) >> release_rest F D b)
            s)
  unfolding pure modify ◌>>=◌ continue
  noted-Released true s = release_rest-Released true s
  noted-Released false s = release_rest-Released false _

  release-Released : (s : Application F D) → Released (after (release F D) s)
  unfolding release gets ◌>>=◌ continue release_rest
  release-Released s = noted-Released (hw_succeeded (D.result s.world)) s

  now-Released : Keeps Released (now F D)
  unfolding ask call
  now-Released = record {
    holds = λ s h. record {
      flag = h.flag;
      told = elim h.told [ inl b ↦ inl b | inr p ↦ inr (L.at_millis s.world p) ];
    };
  }

  restarted-Released : Keeps Released (tell F D D.restart)
  unfolding tell modify
  restarted-Released = record {
    holds = λ s h. record {
      flag = h.flag;
      told = elim h.told [ inl b ↦ inl b | inr p ↦ inr (L.at_restart s.world p) ];
    };
  }

  restart-Released : Keeps Released (restart_if_released F D)
  unfolding restart_if_released restart_late
  restart-Released = Keeps-bind _ _ (Keeps-gets _) λ s.
      Keeps-if _ _ _
        (Keeps-bind _ _ now-Released λ _. Keeps-if _ _ _ restarted-Released (Keeps-pure _))
        (Keeps-pure _)

  -- The actions of later calls, the first of which began the cut.
  serve_cut-Released :
      (t : ℕ) (s : Application F D)
      → ((s.released ≡ true) × (before ≡ true)) ⊎ (may_release F D t s ≡ true)
      → Released (after (serve_cut F D false t) s)
  unfolding serve_cut ◌>>=◌ gets continue pure
  serve_cut-Released t s h =
      after-continue (λ _. restart_if_released F D) (λ _. restart-Released) _ _
        (if_rule (λ (m : Method F D (Unit {0})). Released (after m s)) (may_release F D t s)
          (λ _. release-Released s)
          (λ e. elim h [ inl (r, b) ↦ record { flag = r; told = inl b } | inr m ↦ cc ]))

module _ {F : Floats} {D : Parts F} where
  may_release_lem :
      (t : ℕ) (s : Application F D)
      → (D.busy s.world ≡ false) ⊎ (final_cleanup_ms ≤ sub32 t s.action_at)
      → (s.released ≡ true) ⊎ (may_release F D t s ≡ true)
  unfolding may_release
  may_release_lem t s (inl b) = elim (Bool-cases s.released) [
    | inl r ↦ inl r
    | inr r ↦ inr (ground (arith, b, r))
  ]
  may_release_lem t s (inr b) = elim (Bool-cases s.released) [
    | inl r ↦ inl r
    | inr r ↦ inr (ground (arith, b, r))
  ]

  -- An action that was taken up before goes on.
  serve-later :
      (a : PendingAction) (t : ℕ) (u : Application F D)
      → a.id ≡ u.active_action
      → serve F D a t u ≡ dispatch F D a.kind false t u
  unfolding serve ◌>>=◌ gets continue pure
  serve-later a t u e =
      let first : not (a.id == u.active_action) ≡ false = ground (arith, e) in
      let after_first : Bool → Option (Unit {0}) × Application F D = λ b.
        ((if b then modify (begin_action F D a.id t) else pure tt) >> dispatch F D a.kind b t) u in
      ap after_first first

  service_action-serve :
      (s : Application F D)
      → is_action no_action s.manager.pending.kind ≡ false
      → let (t, w) = D.millis s.world in
        service_action F D s ≡ serve F D s.manager.pending t (record s { world = w })
  unfolding service_action ask call ◌>>=◌ gets continue
  service_action-serve s e =
      let (t, w) = D.millis s.world in
      let u : Application F D = record s { world = w } in
      ap (λ b. (if b then answer_idle F D else serve F D s.manager.pending t) u) e

  -- While the manager cuts the power, a call after the first one, that finds the board idle or comes
  -- 750 ms after the first even if it never becomes idle, has told the board to release the backup
  -- where that was not done before: whatever that call establishes holds after it. And the
  -- application then knows that it did.
  pub service_action-released :
      {P : D.World → Type 0} (s : Application F D)
      → Lasting D P
      → s.manager.pending.kind ≡ cut_power
      → s.manager.pending.id ≡ s.active_action
      → let (t, w) = D.millis s.world in
        (D.busy w ≡ false) ⊎ (final_cleanup_ms ≤ sub32 t s.action_at)
        → let u = after (service_action F D) s in
          (u.released ≡ true) × ((s.released ≡ true) ⊎ P u.world)
  unfolding dispatch
  service_action-released {P = P} s L k n h =
      let (t, w) = D.millis s.world in
      let u : Application F D = record s { world = w } in
      let due : ((u.released ≡ true) × (u.released ≡ true)) ⊎ (may_release F D t u ≡ true) =
        elim (may_release_lem t u h) [ inl r ↦ inl (r, r) | inr m ↦ inr m ] in
      let done = serve_cut-Released L s.released t u due in
      let steps : service_action F D s ≡ serve_cut F D false t u =
        service_action-serve s (ap (is_action no_action) k)
        ∙ serve-later s.manager.pending t u n
        ∙ ap (λ q. dispatch F D q false t u) k in
      subst
        (λ (o : Option (Unit {0}) × Application F D).
          (o.1.released ≡ true) × ((s.released ≡ true) ⊎ P o.1.world))
        (sym steps) (done.flag, done.told)
