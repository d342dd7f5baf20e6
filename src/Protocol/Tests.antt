-- ===== src/Protocol/Tests.antt =====
-- The protocol on concrete bytes.
use tankervision_pdb.Common.{
  c_str, ℕ, true, false, ◌≡◌, List, [], ◌∷◌, ◌++◌, arith, refl, codes, Option, none, some,
  replicate, if◌then◌else◌, ◌==◌, has_nul,
}
use tankervision_pdb.Protocol.Framer
use tankervision_pdb.Protocol.Framer.{FrameResult, line, invalid, too_long}
use tankervision_pdb.Protocol.Framing.{Idle, IsClean, received, sent, received-sent, push-feed}
use tankervision_pdb.Protocol.Request.{
  Request, status, reboot, Code, bad_request, empty_request, fingerprint, accepted,
}
use tankervision_pdb.Protocol.ReplayCache
use tankervision_pdb.Protocol.ReplayCache.{
  Match, new, same, conflict, Reply, find, lookup, remember, no_reply,
}
use tankervision_pdb.Protocol.Replay.{IsSized, remember_all, lookup-remember_all}
use tankervision_pdb.Protocol.Lexer.{space, number, number_body}
use tankervision_pdb.Protocol.Parser.{parse, field_round}
use tankervision_pdb.Protocol.Total.{parse-total}
use tankervision_pdb.Protocol.Numbers.{print, value_from, number-print, number_body-overflow}

idle : Idle Framer.new
idle = ground arith

clean : IsClean (codes "hi")
unfolding has_nul
clean = ground arith

received-sent_example :
    received (sent (codes "hi" ∷ codes "hi" ∷ [])) Framer.new
    ≡ (line, codes "hi") ∷ (line, codes "hi") ∷ []
received-sent_example =
    received-sent (codes "hi" ∷ codes "hi" ∷ []) Framer.new (clean, (clean, tt)) idle

push-feed_example :
    let (r, g) = Framer.push b'\n' (Framer.feed (7 ∷ 0 ∷ []) Framer.new) in (r ≡ invalid) × Idle g
unfolding has_nul
push-feed_example = push-feed (7 ∷ 0 ∷ []) Framer.new (omega arith) idle

abbrev reboot_request : ℕ → Request
reboot_request n = record empty_request { command = reboot; id = n }

abbrev done : Reply
done = record { ok = true; code = accepted }

fresh_cache : IsSized ReplayCache.empty
fresh_cache = ground arith

abbrev later : List (Request × Reply)
later = (reboot_request 2, done) ∷ (reboot_request 3, done) ∷ []

lookup-remember_all_example :
    lookup
      (reboot_request 1)
      no_reply
      (remember_all later (remember (reboot_request 1) done ReplayCache.empty))
    ≡ (
      if fingerprint (reboot_request 1) == fingerprint (reboot_request 1) then same else conflict,
      done,
    )
unfolding find
lookup-remember_all_example =
    lookup-remember_all (reboot_request 1) (reboot_request 1) done no_reply ReplayCache.empty later
      (omega arith) fresh_cache refl refl (omega arith) (omega arith)

abbrev many : List (Request × Reply)
many = replicate 16 (reboot_request 2, done)

parse_reboot :
    parse (codes "{\"v\":1,\"id\":7,\"cmd\":\"status\"}")
    ≡ some (none, record empty_request { command = status; id = 7 })
unfolding parse space field_round c_str
parse_reboot = refl

parse_duplicate : parse (codes "{\"v\":1,\"v\":1}") ≡ some (some bad_request, empty_request)
unfolding parse space field_round c_str
parse_duplicate = refl

parse-total_example : (r : Option Code × Request) × (parse (codes "{}") ≡ some r)
parse-total_example = parse-total (codes "{}")

number-print_example : number (print 4294967295 ++ codes ",") 9 ≡ (true, 4294967295, codes ",")
number-print_example = number-print 4294967295 9 (codes ",") (omega arith) refl

number_body-overflow_example : (number_body (codes "4294967296" ++ codes ",") 0).0 ≡ false
unfolding value_from
number_body-overflow_example =
    number_body-overflow (codes "4294967296") (codes ",") 0
      (refl, (refl, (refl, (refl, (refl, (refl, (refl, (refl, (refl, (refl, tt))))))))))
      (omega arith) (omega arith)
