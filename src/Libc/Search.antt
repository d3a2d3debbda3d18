-- ===== src/Libc/Search.antt =====
-- What `strstr`, `strchr` and `c_str` find.
use benchamel.Base.{
  ℕ, zero, suc, ◌+◌, ◌<◌, ◌≡◌, refl, ap, sym, ◌∙◌, true, false, inl, inr, none, some, [], ◌∷◌, ◌++◌,
  arith, Bytes, length, get_or, take, drop, Lacks, Bool-cases,
}
use mathlib.Core.Path.{subst}
use mathlib.Core.Option.{some-injective}
use native.Mathlib.Decide.{ℕ_discrete}
use benchamel.Libc.{is_prefix, strstr, strchr, c_str}

-- `t` is the part of `s` from the first occurrence of `needle` on.
pub record First (needle s t : Bytes) : Type 0 where
  pub before : Bytes
  pub whole : s ≡ before ++ t
  pub starts : is_prefix needle t ≡ true
  pub earlier : (k : ℕ) → k < length before → is_prefix needle (drop k s) ≡ false

pub First-here : (needle s : Bytes) → is_prefix needle s ≡ true → First needle s s
First-here needle s h = record {
  before = [];
  whole = refl;
  starts = h;
  earlier = λ k lt. elim lt [ ];
}

earlier-cons :
    (needle s : Bytes) (c : ℕ) (n : ℕ)
    → is_prefix needle (c ∷ s) ≡ false
    → ((k : ℕ) → k < n → is_prefix needle (drop k s) ≡ false)
    → (k : ℕ) → k < suc n
    → is_prefix needle (drop k (c ∷ s)) ≡ false
earlier-cons needle s c n here later zero lt = here
earlier-cons needle s c n here later (suc k) lt = later k (omega arith)

pub is_prefix-append : (needle s : Bytes) → is_prefix needle (needle ++ s) ≡ true
unfolding is_prefix
is_prefix-append [] s = refl
is_prefix-append (n ∷ ns) s = ground (arith, is_prefix-append ns s)

strstr_here : (s needle : Bytes) → is_prefix needle s ≡ true → strstr s needle ≡ some s
unfolding strstr
strstr_here [] needle h = rw h
strstr_here (c ∷ s) needle h = rw h

strstr_later :
    (c : ℕ) (s needle : Bytes)
    → is_prefix needle (c ∷ s) ≡ false
    → strstr (c ∷ s) needle ≡ strstr s needle
unfolding strstr
strstr_later c s needle h = rw h

strstr-nil_later : (needle : Bytes) → is_prefix needle [] ≡ false → strstr [] needle ≡ none
unfolding strstr
strstr-nil_later needle h = rw h

First-cons :
    (c : ℕ) (needle s t : Bytes)
    → is_prefix needle (c ∷ s) ≡ false
    → First needle s t
    → First needle (c ∷ s) t
First-cons c needle s t h f = record {
  before = c ∷ f.before;
  whole = ap (λ r. c ∷ r) f.whole;
  starts = f.starts;
  earlier = earlier-cons needle s c (length f.before) h f.earlier;
}

-- What `strstr` returns begins at the first occurrence.
pub strstr-First : (s needle t : Bytes) → strstr s needle ≡ some t → First needle s t
strstr-First [] needle t h = elim (Bool-cases (is_prefix needle [])) [
  | inl here ↦
      subst (First needle []) (some-injective _ _ (sym (strstr_here [] needle here) ∙ h))
        (First-here needle [] here)
  | inr other ↦ let e : none ≡ some t = sym (strstr-nil_later needle other) ∙ h in cc
]
strstr-First (c ∷ s) needle t h = elim (Bool-cases (is_prefix needle (c ∷ s))) [
  | inl here ↦
      subst (First needle (c ∷ s)) (some-injective _ _ (sym (strstr_here (c ∷ s) needle here) ∙ h))
        (First-here needle (c ∷ s) here)
  | inr other ↦
      First-cons c needle s t other
        (strstr-First s needle t (sym (strstr_later c s needle other) ∙ h))
]

is_prefix_not : (s needle : Bytes) → strstr s needle ≡ none → is_prefix needle s ≡ false
is_prefix_not s needle h = elim (Bool-cases (is_prefix needle s)) [
  | inl here ↦ let e : none ≡ some s = sym h ∙ strstr_here s needle here in cc
  | inr other ↦ other
]

-- If nothing is found, the needle begins nowhere.
pub strstr-none :
    (s needle : Bytes) → strstr s needle ≡ none → (k : ℕ) → is_prefix needle (drop k s) ≡ false
strstr-none s needle h zero = is_prefix_not s needle h
strstr-none [] needle h (suc k) = is_prefix_not [] needle h
strstr-none (c ∷ s) needle h (suc k) =
    strstr-none s needle (sym (strstr_later c s needle (is_prefix_not (c ∷ s) needle h)) ∙ h) k

pub is_prefix-split :
    (needle s : Bytes) → is_prefix needle s ≡ true → s ≡ needle ++ drop (length needle) s
unfolding is_prefix
is_prefix-split [] s h = refl
is_prefix-split (n ∷ ns) [] h = cc
is_prefix-split (n ∷ ns) (c ∷ cs) h = ground (arith, is_prefix-split ns cs)

-- The text from the first `x` on, and what stands before it.
pub record FirstByte (x : ℕ) (s t : Bytes) : Type 0 where
  pub before : Bytes
  pub after : Bytes
  pub whole : s ≡ before ++ t
  pub starts : t ≡ x ∷ after
  pub earlier : Lacks x before

pub strchr-FirstByte : (s : Bytes) (x : ℕ) (t : Bytes) → strchr s x ≡ some t → FirstByte x s t
unfolding strchr
strchr-FirstByte [] x t h = cc
strchr-FirstByte (c ∷ s) x t h = elim (ℕ_discrete c x) [
  | yes e ↦ record {
    before = [];
    after = s;
    whole = ground arith;
    starts = ground arith;
    earlier = tt;
  }
  | no ne ↦
      let f = strchr-FirstByte s x t (ground arith) in
      record {
        before = c ∷ f.before;
        after = f.after;
        whole = ap (λ r. c ∷ r) f.whole;
        starts = f.starts;
        earlier = (ne, f.earlier);
      }
]

-- A byte that stands in the text is found behind what lacks it.
pub strchr-Lacks :
    (p rest : Bytes) (x : ℕ) → Lacks x p → strchr (p ++ (x ∷ rest)) x ≡ some (x ∷ rest)
unfolding strchr
strchr-Lacks [] rest x h = ground arith
strchr-Lacks (c ∷ p) rest x (h, hs) = ground (arith, strchr-Lacks p rest x hs)

-- The search passes over text that lacks the byte.
pub strchr-append : (p rest : Bytes) (x : ℕ) → Lacks x p → strchr (p ++ rest) x ≡ strchr rest x
unfolding strchr
strchr-append [] rest x h = refl
strchr-append (c ∷ p) rest x (h, hs) = ground (arith, strchr-append p rest x hs)

First-found_at :
    (before s needle t : Bytes)
    → s ≡ before ++ t
    → is_prefix needle t ≡ true
    → ((k : ℕ) → k < length before → is_prefix needle (drop k s) ≡ false)
    → strstr s needle ≡ some t
First-found_at [] s needle t e h f = rw e (strstr_here t needle h)
First-found_at (c ∷ before) [] needle t e h f = cc
First-found_at (c ∷ before) (d ∷ s) needle t e h f =
    strstr_later d s needle (f zero (omega arith))
    ∙ First-found_at before s needle t (cc) h (λ k lt. f (suc k) (omega arith))

-- The first occurrence is what `strstr` returns.
pub First-strstr : (s needle t : Bytes) → First needle s t → strstr s needle ≡ some t
First-strstr s needle t f = First-found_at f.before s needle t f.whole f.starts f.earlier

-- A block that holds a NUL behind its first `n` bytes is the C string of those bytes.
pub c_str-take : (n : ℕ) (mem : Bytes) → get_or mem n 1 ≡ 0 → c_str mem ≡ c_str (take n mem)
unfolding c_str
c_str-take zero [] h = refl
c_str-take (suc n) [] h = refl
c_str-take zero (c ∷ mem) h = ground arith
c_str-take (suc n) (c ∷ mem) h = ground (arith, c_str-take n mem h)

pub c_str-Lacks : (s : Bytes) → Lacks 0 s → c_str s ≡ s
unfolding c_str
c_str-Lacks [] h = refl
c_str-Lacks (c ∷ s) (h, hs) = ground (arith, c_str-Lacks s hs)

pub length-c_str : (mem : Bytes) → length (c_str mem) < length mem + 1
unfolding c_str
length-c_str [] = omega arith
length-c_str (c ∷ mem) = ground (arith, length-c_str mem)
