-- ===== src/Memcached/Sockets.antt =====
-- What the socket loops of concurrency-bugs/memcached-127/client.c guarantee.
use benchamel.Base.{
  codes, Lacks, ◌⊎◌, ℕ, zero, suc, ◌-◌, ◌<◌, ◌≤◌, ◌≡◌, ◌≢◌, refl, sym, ap, ◌∙◌, true, false, inl,
  inr, Option, none, some, List, [], ◌∷◌, ◌++◌, arith, Bytes, length, take, drop, min, All, ◌==◌,
  Bool-cases, length-append, length-take, length-drop, take-append-drop, append_assoc, append-nil,
}
use mathlib.Core.Path.{subst}
use benchamel.Base.Outcome.{Outcome, returns, aborts, exits, unfinished, ◌>>=◌}
use benchamel.Memcached.{sends_all, line_from, exact_from}

-- Each `send` takes at least a byte, until so many are gone.
abbrev pub Takes : ℕ → List (Option ℕ) → Type 0
Takes zero sends = Unit
Takes (suc n) (some (suc k) ∷ sends) = Takes (n - k) sends
Takes (suc n) _ = true ≡ false

pub sends_all_whole :
    (sends : List (Option ℕ)) (buf out : Bytes)
    → Takes (length buf) sends
    → (left : List (Option ℕ)) × (sends_all sends buf out ≡ returns (left, out ++ buf))
unfolding sends_all
sends_all_whole sends [] out h = (sends, ap (λ o. returns (sends, o)) (sym (append-nil out)))
sends_all_whole [] (b ∷ buf) out h = absurd (cc h)
sends_all_whole (none ∷ sends) (b ∷ buf) out h = absurd (cc h)
sends_all_whole (some zero ∷ sends) (b ∷ buf) out h = absurd (cc h)
sends_all_whole (some (suc n) ∷ sends) (b ∷ buf) out h =
    let (left, e) =
      sends_all_whole sends (drop n buf) (out ++ b ∷ take n buf) (rw (length-drop n buf) h) in
    (
      left,
      e
          ∙ ap (λ o. returns (left, o))
              (append_assoc out (b ∷ take n buf) (drop n buf)
                ∙ ap (λ t. out ++ b ∷ t) (take-append-drop n buf)),
    )

-- What `send_all` has put on the wire, after what was there.
abbrev pub SentAll : Bytes → Bytes → Outcome (List (Option ℕ) × Bytes) → Type 0
SentAll out buf (returns (sends, out')) = out' ≡ out ++ buf
SentAll out buf (exits n) = n ≡ 1
SentAll out buf aborts = true ≡ false
SentAll out buf unfinished = Unit

SentAll-moved :
    (out out' buf buf' : Bytes) (o : Outcome (List (Option ℕ) × Bytes))
    → out' ++ buf' ≡ out ++ buf
    → SentAll out' buf' o
    → SentAll out buf o
SentAll-moved out out' buf buf' (returns (sends, o)) e p = p ∙ e
SentAll-moved out out' buf buf' (exits n) e p = p
SentAll-moved out out' buf buf' aborts e p = p
SentAll-moved out out' buf buf' unfinished e p = tt

-- A `send_all` that returns has put the whole text on the wire, in order, however the operating
-- system splits it; otherwise the process has ended with status 1 or the call still waits.
pub sends_all-SentAll :
    (sends : List (Option ℕ)) (buf out : Bytes) → SentAll out buf (sends_all sends buf out)
unfolding sends_all
sends_all-SentAll sends [] out = sym (append-nil out)
sends_all-SentAll [] (b ∷ buf) out = tt
sends_all-SentAll (none ∷ sends) (b ∷ buf) out = refl
sends_all-SentAll (some zero ∷ sends) (b ∷ buf) out = refl
sends_all-SentAll (some (suc n) ∷ sends) (b ∷ buf) out =
    SentAll-moved out (out ++ b ∷ take n buf) (b ∷ buf) (drop n buf) _
      (append_assoc out (b ∷ take n buf) (drop n buf)
        ∙ ap (λ t. out ++ b ∷ t) (take-append-drop n buf))
      (sends_all-SentAll sends (drop n buf) (out ++ b ∷ take n buf))

-- The characters of a line, up to the one that ends it.
pub line_from_line :
    (n : ℕ) (line rest : Bytes)
    → All (λ c. c ≢ b'\n') line
    → length line < n
    → line_from n (line ++ b'\n' ∷ rest) ≡ returns (line ++ b'\n' ∷ [], rest)
unfolding line_from
line_from_line zero line rest a h = absurd (omega arith)
line_from_line (suc n) [] rest a h = refl
line_from_line (suc n) (c ∷ line) rest a h =
    rw (line_from_line n line rest a.1 (omega arith)) (ground (arith, a.0))

-- The text up to the first line break, that included, or all there is room for without one.
abbrev pub Ends : ℕ → Bytes → Type 0
Ends n line =
    ((l : Bytes) × (line ≡ l ++ codes "\n") × Lacks b'\n' l)
    ⊎ ((length line ≡ n) × Lacks b'\n' line)

-- What `line_from` does with the stream.
abbrev pub LineOf : ℕ → Bytes → Outcome (Bytes × Bytes) → Type 0
LineOf n s (returns (line, rest)) = (s ≡ line ++ rest) × (length line ≤ n) × Ends n line
LineOf n s (exits k) = (k ≡ 1) × (length s < n)
LineOf n s aborts = true ≡ false
LineOf n s unfinished = true ≡ false

Ends-longer : (n c : ℕ) (line : Bytes) → c ≢ b'\n' → Ends n line → Ends (suc n) (c ∷ line)
Ends-longer n c line ne (inl (l, e, h)) = inl (c ∷ l, ap (λ t. c ∷ t) e, (ne, h))
Ends-longer n c line ne (inr (e, h)) = inr (ap suc e, (ne, h))

LineOf-longer :
    (n c : ℕ) (s : Bytes) (o : Outcome (Bytes × Bytes))
    → c ≢ b'\n'
    → LineOf n s o
    → LineOf (suc n) (c ∷ s) (do r ← o; returns (c ∷ r.0, r.1))
LineOf-longer n c s (returns (line, rest)) ne h =
    (ap (λ t. c ∷ t) h.0, omega (arith, h.1), Ends-longer n c line ne h.2)
LineOf-longer n c s (exits k) ne h = (h.0, omega (arith, h.1))
LineOf-longer n c s aborts ne h = h
LineOf-longer n c s unfinished ne h = h

is_break : (c : ℕ) → (c == b'\n') ≡ true → c ≡ b'\n'
is_break c h = ground (arith, h)

not_break : (c : ℕ) → (c == b'\n') ≡ false → c ≢ b'\n'
not_break c h = λ e. absurd (ground (arith, h, e))

-- With room for n bytes, `recv_line` takes the text up to the first line break off the stream, or n
-- bytes without one, and loses none; it ends the process only when the stream ends first, and it
-- never waits for more.
pub line_from-LineOf : (n : ℕ) (s : Bytes) → LineOf n s (line_from n s)
unfolding line_from
line_from-LineOf zero s = (refl, omega arith, inr (refl, tt))
line_from-LineOf (suc n) [] = (refl, omega arith)
line_from-LineOf (suc n) (c ∷ s) = elim (Bool-cases (c == b'\n')) [
  | inl e ↦ rw e (refl, omega arith, inl ([], ap (λ d. d ∷ []) (is_break c e), tt))
  | inr ne ↦ rw ne (LineOf-longer n c s (line_from n s) (not_break c ne) (line_from-LineOf n s))
]

-- What `recv_exact` takes off the stream.
abbrev pub ExactOf : ℕ → Bytes → Outcome (Bytes × Bytes × List ℕ) → Type 0
ExactOf len s (returns (w, rest, offers)) = (s ≡ w ++ rest) × (length w ≡ len)
ExactOf len s (exits k) = (k ≡ 1) × (length s < len)
ExactOf len s aborts = true ≡ false
ExactOf len s unfinished = Unit

ExactOf-more :
    (len k c : ℕ) (s : Bytes) (o : Outcome (Bytes × Bytes × List ℕ))
    → k ≤ len
    → ExactOf (len - min k (min len (length s))) (drop k s) o
    → ExactOf (suc len) (c ∷ s) (do r ← o; returns ((c ∷ take k s) ++ r.0, r.1, r.2))
ExactOf-more len k c s (returns (w, rest, offers)) h p = (
  ap (λ t. c ∷ t)
      (sym (take-append-drop k s)
        ∙ (ap (λ t. take k s ++ t) p.0 ∙ sym (append_assoc (take k s) w rest))),
  omega (arith, length-append (take k s) w, length-take k s, p.1),
)
ExactOf-more len k c s (exits e) h p = (p.0, omega (arith, p.1, length-drop k s))
ExactOf-more len k c s aborts h p = p
ExactOf-more len k c s unfinished h p = tt

-- However the operating system splits the stream, `recv_exact` takes exactly the bytes asked for, in
-- order, and ends the process only when the stream has fewer.
pub exact_from-ExactOf :
    (offers : List ℕ) (s : Bytes) (len : ℕ) → ExactOf len s (exact_from offers s len)
unfolding exact_from
exact_from-ExactOf offers s zero = (refl, refl)
exact_from-ExactOf [] s (suc len) = tt
exact_from-ExactOf (n ∷ offers) [] (suc len) = (refl, omega arith)
exact_from-ExactOf (n ∷ offers) (c ∷ s) (suc len) =
    ExactOf-more len (min n len) c s _ (omega arith) (
      subst
        (λ m.
          ExactOf m (drop (min n len) s)
            (exact_from offers (drop (min n len) s) (len - min n (min len (length s)))))
        {x = len - min n (min len (length s))} (omega arith)
        (exact_from-ExactOf offers (drop (min n len) s) (len - min n (min len (length s)))))
