-- ===== src/Httrack/Scan/Trim.antt =====
-- What `copy_trimmed` keeps.
use native.Mathlib.Decide.{ℕ_discrete}
use benchamel.Base.{
  ℕ, zero, suc, ◌+◌, ◌-◌, ◌<◌, ◌≤◌, ◌≡◌, ◌≢◌, refl, ap, sym, ◌∙◌, true, false, inl, inr, [], ◌∷◌,
  ◌++◌, arith, Bytes, All, length, get_or, take, drop, Bool-cases, take-append-drop, length-take,
  length-drop, get_or-drop, get_or-take, All-get_or,
}
use benchamel.Libc.{is_space}
use benchamel.Httrack.Scan.{skip_spaces, trimmed_length, trimmed}

abbrev pub IsBlank : Bytes → Type 0
IsBlank = All (λ c. is_space c ≡ true)

-- `w` is the text without the white space at its ends.
pub record IsTrimmed (text w : Bytes) : Type 0 where
  pub lead : Bytes
  pub tail : Bytes
  pub whole : text ≡ lead ++ (w ++ tail)
  pub lead_blank : IsBlank lead
  pub tail_blank : IsBlank tail
  pub first : w ≢ [] → is_space (get_or w 0 0) ≡ false
  pub last : w ≢ [] → is_space (get_or w (length w - 1) 0) ≡ false

record Skipped (text rest : Bytes) : Type 0 where
  lead : Bytes
  whole : text ≡ lead ++ rest
  blank : IsBlank lead
  first : rest ≢ [] → is_space (get_or rest 0 0) ≡ false

skip_spaces-Skipped : (text : Bytes) → Skipped text (skip_spaces text)
unfolding skip_spaces
skip_spaces-Skipped [] = record {
  lead = [];
  whole = refl;
  blank = tt;
  first = λ h. absurd (h refl);
}
skip_spaces-Skipped (c ∷ cs) = elim (Bool-cases (is_space c)) [
  | inl blank ↦
      let s = skip_spaces-Skipped cs in
      rw blank (record {
        lead = c ∷ s.lead;
        whole = ap (λ r. c ∷ r) s.whole;
        blank = (blank, s.blank);
        first = s.first;
      })
  | inr solid ↦ rw solid (record { lead = []; whole = refl; blank = tt; first = λ h. solid })
]

record Shortened (begin : Bytes) (n m : ℕ) : Type 0 where
  shorter : m ≤ n
  blank : (k : ℕ) → m ≤ k → k < n → is_space (get_or begin k 0) ≡ true
  last : m ≢ 0 → is_space (get_or begin (m - 1) 0) ≡ false

trimmed_length-Shortened : (begin : Bytes) (n : ℕ) → Shortened begin n (trimmed_length begin n)
unfolding trimmed_length
trimmed_length-Shortened begin zero = record {
  shorter = omega arith;
  blank = λ k a b. absurd (omega arith);
  last = λ h. absurd (h refl);
}
trimmed_length-Shortened begin (suc n) = elim (Bool-cases (is_space (get_or begin n 0))) [
  | inl here ↦
      let s = trimmed_length-Shortened begin n in
      rw here (record {
        shorter = omega (arith, s.shorter);
        blank = λ k a b. elim (ℕ_discrete k n) [
          | yes e ↦ rw e here
          | no ne ↦ s.blank k a (omega arith)
        ];
        last = s.last;
      })
  | inr solid ↦ rw solid (record {
    shorter = omega arith;
    blank = λ k a b. absurd (omega arith);
    last = λ h. ap (λ j. is_space (get_or begin j 0)) (omega arith) ∙ solid;
  })
]

take-ne-nil : (m : ℕ) (xs : Bytes) → take m xs ≢ [] → (0 < m) × (xs ≢ [])
take-ne-nil zero xs h = absurd (h refl)
take-ne-nil (suc m) [] h = absurd (h refl)
take-ne-nil (suc m) (x ∷ xs) h = (omega arith, λ e. cc)

-- The text is its blank ends and, between them, what `copy_trimmed` copies, which neither begins
-- nor ends with white space.
pub trimmed-IsTrimmed : (text : Bytes) → IsTrimmed text (trimmed text)
unfolding trimmed
trimmed-IsTrimmed text = record {
  lead = s.lead;
  tail = drop m begin;
  whole = s.whole ∙ ap (λ r. s.lead ++ r) (sym (take-append-drop m begin));
  lead_blank = s.blank;
  tail_blank = All-get_or _ (drop m begin) 0 (λ k lt.
      ap is_space (get_or-drop m k begin 0)
      ∙ t.blank (m + k) (omega arith) (omega (arith, length-drop m begin, t.shorter)));
  first = λ h.
      let (pos, ne) = take-ne-nil m begin h in
      ap is_space (get_or-take m 0 begin 0 pos) ∙ s.first ne;
  last = λ h.
      let (pos, ne) = take-ne-nil m begin h in
      let e : length (take m begin) ≡ m = omega (arith, length-take m begin, t.shorter) in
      ap (λ j. is_space (get_or (take m begin) (j - 1) 0)) e
      ∙ (ap is_space (get_or-take m (m - 1) begin 0 (omega arith)) ∙ t.last (omega arith));
}
  where
    begin : Bytes
    begin = skip_spaces text

    m : ℕ
    m = trimmed_length begin (length begin)

    s : Skipped text begin
    s = skip_spaces-Skipped text

    t : Shortened begin (length begin) m
    t = trimmed_length-Shortened begin (length begin)
