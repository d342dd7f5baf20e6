-- ===== src/Application/Remembered.antt =====
-- A request adds at most its own reply to the replay cache.
use tankervision_pdb.Common.{
  ℕ, true, Floats, ◌≡◌, ◌≢◌, inl, inr, ◌≤◌, List, [], ◌∷◌, refl, sym, ◌∙◌, ap, subst, arith, length,
  some, Bool-cases, if_rule,
}
use tankervision_pdb.Common.Act.{
  Ends, Ends-bind, pure, call, continue, after, modify, gets, ◌>>=◌, ◌>>◌,
}
use tankervision_pdb.Application.State.{Application, Parts}
use tankervision_pdb.Application.Output.{Method, ask, hand_over, respond, report}
use tankervision_pdb.Application.Handle.{
  decide, keep_reply, handle_new, known, reply_by, handle, is_status, is_mutation,
}
use tankervision_pdb.Protocol.Request.{Request, ok}
use tankervision_pdb.Protocol.ReplayCache.{ReplayCache, Match, new, same, conflict, Reply, remember}
use tankervision_pdb.Protocol.Replay.{AllOther, remember_all}
use tankervision_pdb.Application.Cached.{Cached, decide-Cached, hand_over-Cached, report-Cached}

-- The replay cache is `c`, or `c` and the reply to `r`.
pub data Remembered (r : Request) (c d : ReplayCache) : Type 0 where
  unchanged : d ≡ c → Remembered r c d
  added : (y : Reply) → d ≡ remember r y c → Remembered r c d

-- None of the requests has the id.
abbrev pub OtherIds : ℕ → List Request → Type 0
OtherIds id [] = Unit {0}
OtherIds id (r ∷ rs) = (r.id ≢ id) × OtherIds id rs

-- What has been remembered since the cache was `c`.
pub record Since (id n : ℕ) (c d : ReplayCache) : Type 0 where
  pub replies : List (Request × Reply)
  pub all : d ≡ remember_all replies c
  pub others : AllOther id replies
  pub few : length replies ≤ n

module _ {F : Floats} {D : Parts F} where
  pub handle_new-after :
      (r : Request) (s : Application F D) (y : Reply)
      → (decide F D r s).0 ≡ some y
      → handle_new F D r s ≡ (keep_reply F D r y >> respond F D r.id y.ok y.code) (decide F D r s).1
  unfolding handle_new ◌>>=◌ continue
  handle_new-after r s y e =
      ap
        (λ o.
          continue (λ x. keep_reply F D r x >> respond F D r.id x.ok x.code) o (decide F D r s).1)
        e

  kept_reply :
      (r : Request) (y : Reply) (s : Application F D)
      → Remembered r s.replay (after (keep_reply F D r y >> respond F D r.id y.ok y.code) s).replay
  unfolding keep_reply hand_over ask call modify pure ◌>>=◌ continue
  kept_reply r y s = elim (Bool-cases (is_mutation r.command)) [
    | inl e ↦ added y (ground arith)
    | inr e ↦ unchanged (ground arith)
  ]

  handle_new-Remembered :
      (r : Request) (s : Application F D)
      → Remembered r s.replay (after (handle_new F D r) s).replay
  handle_new-Remembered r s =
      let d = (decide-Cached s.replay r).ends s (record { same_cache = refl }) in
      subst (λ o. Remembered r s.replay o.1.replay) (sym (handle_new-after r s d.value d.outcome))
        (subst
          (λ c.
            Remembered r c
              (after (keep_reply F D r d.value >> respond F D r.id d.value.ok d.value.code)
                (decide F D r s).1).replay)
          d.kept.same_cache (kept_reply r d.value (decide F D r s).1))

  Cached-Remembered :
      {A : Type 0} (r : Request) (m : Method F D A) (s : Application F D)
      → Ends (Cached s.replay) m
      → Remembered r s.replay (after m s).replay
  Cached-Remembered r m s h = unchanged (h.ends s (record { same_cache = refl })).kept.same_cache

  reply_by-Remembered :
      (r : Request) (m : Match × Reply) (s : Application F D)
      → Remembered r s.replay (after (reply_by F D r m) s).replay
  unfolding reply_by
  reply_by-Remembered r (new, y) s = handle_new-Remembered r s
  reply_by-Remembered r (same, y) s = Cached-Remembered r _ s (hand_over-Cached s.replay _)
  reply_by-Remembered r (conflict, y) s = Cached-Remembered r _ s (hand_over-Cached s.replay _)

  handle-Remembered :
      (r : Request) (s : Application F D) → Remembered r s.replay (after (handle F D r) s).replay
  unfolding handle ◌>>=◌ gets continue
  handle-Remembered r s =
      if_rule (λ (m : Method F D (Unit {0})). Remembered r s.replay (after m s).replay)
        (is_status r.command)
        (λ _.
          Cached-Remembered r (respond F D r.id true ok >> report F D) s
            (Ends-bind _ _ (hand_over-Cached s.replay _) λ _. report-Cached s.replay))
        (λ _. reply_by-Remembered r (known F D r s) s)

  -- Requests handled one after another.
  unfoldable pub handle_all : List Request → Application F D → Application F D
  handle_all [] s = s
  handle_all (r ∷ rs) s = handle_all rs (after (handle F D r) s)

  pub handle_all-Since :
      (id : ℕ) (rs : List Request) (s : Application F D)
      → OtherIds id rs
      → Since id (length rs) s.replay (handle_all rs s).replay
  unfolding handle_all remember_all
  handle_all-Since id [] s o = record { replies = []; all = refl; others = tt; few = omega arith }
  handle_all-Since id (r ∷ rs) s o =
      let rest = handle_all-Since id rs (after (handle F D r) s) o.1 in
      elim (handle-Remembered r s) [
        | unchanged e ↦ record {
          replies = rest.replies;
          all = rest.all ∙ ap (remember_all rest.replies) e;
          others = rest.others;
          few = omega (arith, rest.few);
        }
        | added y e ↦ record {
          replies = (r, y) ∷ rest.replies;
          all = rest.all ∙ ap (remember_all rest.replies) e;
          others = (o.0, rest.others);
          few = omega (arith, rest.few);
        }
      ]
