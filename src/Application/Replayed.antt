-- ===== src/Application/Replayed.antt =====
-- A repeated request is answered from the replay cache.
use tankervision_pdb.Common.{
  ℕ, Bool, true, false, Floats, ◌≡◌, ◌≢◌, ◌≤◌, ◌==◌, if◌then◌else◌, List, [], ◌∷◌, refl, sym, ◌∙◌,
  ap, subst, arith, length, Option, none, some,
}
use tankervision_pdb.Common.Act.{pure, call, continue, after, modify, gets, ◌>>=◌, ◌>>◌}
use tankervision_pdb.Application.State.{Application, Parts, Body, response}
use tankervision_pdb.Application.Output.{Method, ask, hand_over, respond}
use tankervision_pdb.Application.Handle.{
  decide, keep_reply, handle_new, known, reply_by, handle, replayed, is_status, is_mutation,
}
use tankervision_pdb.Protocol.Request.{
  Request, Command, status, pong, shutdown_ack, shutdown_ready, port_set, reboot, unknown,
  fingerprint, Code,
}
use tankervision_pdb.Protocol.ReplayCache.{
  ReplayCache, Match, new, same, conflict, Reply, no_reply, find, lookup, remember,
}
use tankervision_pdb.Protocol.Replay.{IsSized, remember_all, lookup-remember_all}
use tankervision_pdb.Application.Cached.{decide-Cached}
use tankervision_pdb.Application.Remembered.{
  OtherIds, handle_new-after, handle_all, handle_all-Since,
}

mutation-status : (k : Command) → is_mutation k ≡ true → is_status k ≡ false
mutation-status status h = cc
mutation-status pong h = refl
mutation-status shutdown_ack h = refl
mutation-status shutdown_ready h = refl
mutation-status port_set h = refl
mutation-status reboot h = refl
mutation-status unknown h = refl

lookup-fresh :
    (r : Request) (y : Reply) (c : ReplayCache)
    → find r.id c.entries ≡ none
    → lookup r y c ≡ (new, y)
unfolding lookup
lookup-fresh r y c e = ground (arith, e)

module _ {F : Floats} {D : Parts F} where
  -- What the last message says.
  abbrev pub last_body : Application F D → Option Body
  last_body s = elim s.sent [ [] ↦ none | m ∷ ms ↦ some m.body ]

  respond-last_body :
      (id : ℕ) (done : Bool) (code : Code) (s : Application F D)
      → last_body (after (respond F D id done code) s) ≡ some (response id done code)
  unfolding hand_over ask call modify ◌>>=◌ continue
  respond-last_body id done code s = refl

  handle-mutation :
      (r : Request) (s : Application F D) (m : Match × Reply)
      → is_mutation r.command ≡ true
      → lookup r no_reply s.replay ≡ m
      → handle F D r s ≡ reply_by F D r m s
  unfolding handle known ◌>>=◌ gets continue
  handle-mutation r s m h e = ground (arith, mutation-status r.command h, e)

  -- The first time, the reply is remembered and sent.
  record Answered (r : Request) (c : ReplayCache) (t : Application F D) : Type 0 where
    reply : Reply
    kept : t.replay ≡ remember r reply c
    said : last_body t ≡ some (response r.id reply.ok reply.code)

  kept-Answered :
      (r : Request) (y : Reply) (s : Application F D)
      → is_mutation r.command ≡ true
      → Answered r s.replay (after (keep_reply F D r y >> respond F D r.id y.ok y.code) s)
  unfolding keep_reply hand_over ask call modify pure ◌>>=◌ continue
  kept-Answered r y s h = record { reply = y; kept = ground (arith, h); said = ground (arith, h) }

  handle_new-Answered :
      (r : Request) (s : Application F D)
      → is_mutation r.command ≡ true
      → Answered r s.replay (after (handle_new F D r) s)
  handle_new-Answered r s h =
      let d = (decide-Cached s.replay r).ends s (record { same_cache = refl }) in
      subst (λ o. Answered r s.replay o.1) (sym (handle_new-after r s d.value d.outcome))
        (subst
          (λ c. Answered r c (
            after (keep_reply F D r d.value >> respond F D r.id d.value.ok d.value.code)
              (decide F D r s).1))
          d.kept.same_cache (kept-Answered r d.value (decide F D r s).1 h))

  reply_by-old :
      (q : Request) (y : Reply) (b : Bool)
      → let m = if b then same else conflict in
        reply_by F D q (m, y) ≡ respond F D q.id (replayed m y).ok (replayed m y).code
  unfolding reply_by
  reply_by-old q y true = refl
  reply_by-old q y false = refl

  -- A new `port_set` or `reboot` request is answered. While at most fifteen requests with other ids
  -- have been handled after it, one with its id gets the same reply again if the fingerprints agree
  -- and a conflict if not, and handling it is no more than sending that reply.
  pub handle-repeated :
      (r q : Request) (later : List Request) (s : Application F D)
      → is_mutation r.command ≡ true
      → is_mutation q.command ≡ true
      → r.id ≢ 0
      → IsSized s.replay
      → find r.id s.replay.entries ≡ none
      → q.id ≡ r.id
      → length later ≤ 15
      → OtherIds r.id later
      → let t = after (handle F D r) s in
        let u = handle_all later t in
        let m = if fingerprint r == fingerprint q then same else conflict in
        (y : Reply) × (last_body t ≡ some (response r.id y.ok y.code))
        × (handle F D q u ≡ respond F D q.id (replayed m y).ok (replayed m y).code u)
  unfolding reply_by
  handle-repeated r q later s hr hq n z f e l o =
      let t = after (handle F D r) s in
      let first = handle-mutation r s (new, no_reply) hr (lookup-fresh r no_reply s.replay f) in
      let a = subst (λ p. Answered r s.replay p.1) (sym first) (handle_new-Answered r s hr) in
      let since = handle_all-Since r.id later t o in
      let cache = since.all ∙ ap (remember_all since.replies) a.kept in
      let found =
        ap (lookup q no_reply) cache
        ∙ lookup-remember_all r q a.reply no_reply s.replay since.replies n z f e
            (omega (arith, since.few, l)) since.others in
      (
        a.reply,
        a.said,
        handle-mutation q (handle_all later t) _ hq found
            ∙ ap (λ (k : Method F D (Unit {0})). k (handle_all later t))
                (reply_by-old q a.reply (fingerprint r == fingerprint q)),
      )
