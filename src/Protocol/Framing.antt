-- ===== src/Protocol/Framing.antt =====
-- The framer's contract: which lines come out of the bytes that went in.
use tankervision_pdb.Common.{
  ℕ, zero, suc, false, ◌+◌, ◌<◌, ◌≤◌, ◌≡◌, ◌≢◌, ◌||◌, if◌then◌else◌, List, [], ◌∷◌, ◌++◌, set, take,
  length, length-set, length-append, arith, has_nul, c_str, c_str-set, has_nul-append, refl, ltb,
  ap, add-one, append-nil, append_assoc, subst, map,
}
use tankervision_pdb.Protocol.Framer.{
  FrameResult, no_result, line, too_long, invalid, Framer, push, feed,
}

abbrev pub AllBody : List ℕ → Type 0
AllBody [] = Unit {0}
AllBody (b ∷ bs) = (b ≢ b'\n') × AllBody bs

-- The state between two lines.
pub record Idle (f : Framer) : Type 0 where
  pub sized : length f.buffer ≡ 513
  pub empty : f.used ≡ 0
  pub kept : f.discard ≡ false
  pub clean : f.bad ≡ false

-- The state after `seen` has been fed since the last line.
record Seen (seen : List ℕ) (f : Framer) : Type 0 where
  sized : length f.buffer ≡ 513
  within : f.used ≤ 512
  bad_iff : f.bad ≡ has_nul seen
  discard_iff : f.discard ≡ (has_nul seen || ltb 512 (length seen))
  used_is : f.discard ≡ false → f.used ≡ length seen
  stored : f.discard ≡ false → take f.used f.buffer ≡ seen

take-set : (xs : List ℕ) (n v : ℕ) → n < length xs → take (n + 1) (set xs n v) ≡ take n xs ++ v ∷ []
take-set xs n v h = rw add-one (go xs n h)
  where
    go : (xs : List ℕ) (n : ℕ) → n < length xs → take (suc n) (set xs n v) ≡ take n xs ++ v ∷ []
    go [] n h = absurd (omega arith)
    go (x ∷ xs) zero h = refl
    go (x ∷ xs) (suc n) h = ap (λ r. x ∷ r) (go xs n (omega arith))

push-Seen :
    (b : ℕ) (seen : List ℕ) (f : Framer)
    → b ≢ b'\n'
    → Seen seen f
    → Seen (seen ++ b ∷ []) (push b f).1
unfolding push has_nul
push-Seen b seen f nb h = ground (
  arith,
  length-append {0} seen (b ∷ []),
  has_nul-append seen (b ∷ []),
  length-set {0} f.buffer f.used b,
  take-set f.buffer f.used b,
)

feed-Seen :
    (bs seen : List ℕ) (f : Framer) → AllBody bs → Seen seen f → Seen (seen ++ bs) (feed bs f)
unfolding feed
feed-Seen [] seen f a h = rw append-nil h
feed-Seen (b ∷ bs) seen f a h =
    subst (λ s. Seen s (feed bs (push b f).1)) (append_assoc seen (b ∷ []) bs)
      (feed-Seen bs (seen ++ b ∷ []) (push b f).1 a.1 (push-Seen b seen f a.0 h))

Idle-Seen : (f : Framer) → Idle f → Seen [] f
unfolding has_nul
Idle-Seen f h = ground arith

end_line-push :
    (seen : List ℕ) (f : Framer)
    → Seen seen f
    → let (r, g) = push b'\n' f in
      (r ≡ (if has_nul seen then invalid else if ltb 512 (length seen) then too_long else line))
      × (r ≡ line → c_str g.buffer ≡ seen)
      × Idle g
unfolding push
end_line-push seen f h = ground (arith, length-set {0} f.buffer f.used 0, c_str-set f.buffer f.used)

-- Between two newlines, whatever came before: a body with a NUL is reported invalid, another one
-- of more than 512 bytes too long, and any other a line. The framer is then idle again.
pub push-feed :
    (body : List ℕ) (f : Framer)
    → AllBody body
    → Idle f
    → let (r, g) = push b'\n' (feed body f) in
      (r ≡ (if has_nul body then invalid else if ltb 512 (length body) then too_long else line))
      × Idle g
push-feed body f a h =
    let (r, _, g) = end_line-push body (feed body f) (feed-Seen body [] f a (Idle-Seen f h)) in
    (r, g)

-- A body that fits and holds neither a newline nor a NUL.
pub record IsClean (body : List ℕ) : Type 0 where
  pub one_line : AllBody body
  pub no_nul : has_nul body ≡ false
  pub fits : length body ≤ 512

abbrev pub AllClean : List (List ℕ) → Type 0
AllClean [] = Unit {0}
AllClean (b ∷ bs) = IsClean b × AllClean bs

-- The lines that come out of a stream of bytes.
unfoldable pub received : List ℕ → Framer → List (FrameResult × List ℕ)
received [] f = []
received (b ∷ bs) f =
    let (r, g) = push b f in
    let rest = received bs g in elim r [ no_result ↦ rest | other ↦ (other, c_str g.buffer) ∷ rest ]

unfoldable pub sent : List (List ℕ) → List ℕ
sent [] = []
sent (b ∷ bs) = b ++ b'\n' ∷ sent bs

push-quiet : (b : ℕ) (f : Framer) → b ≢ b'\n' → (push b f).0 ≡ no_result
unfolding push
push-quiet b f h = ground arith

received-feed :
    (body rest : List ℕ) (f : Framer)
    → AllBody body
    → received (body ++ rest) f ≡ received rest (feed body f)
unfolding received feed
received-feed [] rest f a = refl
received-feed (b ∷ bs) rest f a =
    ground (arith, push-quiet b f a.0, received-feed bs rest (push b f).1 a.1)

-- The lines that a client sends arrive whole, alone and in order, whatever their number.
pub received-sent :
    (bodies : List (List ℕ)) (f : Framer)
    → AllClean bodies
    → Idle f
    → received (sent bodies) f ≡ map (λ b. (line, b)) bodies
unfolding received sent
received-sent [] f a h = refl
received-sent (b ∷ bs) f a h =
    let full = end_line-push b (feed b f) (feed-Seen b [] f a.0.one_line (Idle-Seen f h)) in
    ground (
      arith,
      received-feed b (b'\n' ∷ sent bs) f a.0.one_line,
      a.0.no_nul,
      a.0.fits,
      full,
      received-sent bs (push b'\n' (feed b f)).1 a.1,
    )
