-- ===== src/Pushdown/Quotes.antt =====
-- filter_pushdown.rs: names and texts between quotes, read back by the rules of SQL, or by those of a
-- source that takes a backslash as an escape, as MySQL does in texts.
use seafowl.Prelude.{
  ℕ, ◌≡◌, ◌≢◌, refl, ap, ◌∙◌, inl, inr, Bool-cases, ==_iff, Bool, true, false, Option, none, some,
  [], ◌∷◌, ◌++◌, ◌==◌, All, arith, if◌then◌else◌, append_assoc,
}
use seafowl.Pushdown.{Text, double, quote}

abbrev prepend : ℕ → Option (Text × Text) → Option (Text × Text)
prepend c none = none
prepend c (some (s, rest)) = some (c ∷ s, rest)

pub data Quoting : Type 0 where
  standard backslashes : Quoting

abbrev is_escape : Quoting → ℕ → Bool
is_escape standard c = false
is_escape backslashes c = c == b'\\'

-- How a quoted token is read after its first quote: a quote ends it, unless another one follows, which
-- stands for one quote. A backslash, where it is an escape, hides the character after it, which is
-- kept here as it is. The content and what is left of the input.
unfoldable pub scan : Quoting → ℕ → Text → Option (Text × Text)
scan m q [] = none
scan m q (c ∷ []) = if c == q then some ([], []) else none
scan m q (c ∷ d ∷ s) =
    let after_pair = prepend q (scan m q s) in
    let after_escape = prepend d (scan m q s) in
    let after_char = prepend c (scan m q (d ∷ s)) in
    if c == q
    then if d == q then after_pair else some ([], d ∷ s)
    else if is_escape m c
    then after_escape
    else after_char

unfoldable pub read_quoted : Quoting → ℕ → Text → Option (Text × Text)
unfolding scan
read_quoted m q [] = none
read_quoted m q (c ∷ s) = if c == q then scan m q s else none

-- What follows does not begin with the quote.
abbrev pub IsApart : ℕ → Text → Type 0
IsApart q [] = Unit
IsApart q (c ∷ s) = (c == q) ≡ false

-- There is no escape in the text.
abbrev pub IsPlain : Quoting → Text → Type 0
IsPlain m s = All (λ c. is_escape m c ≡ false) s

scan_end :
    (m : Quoting) (q : ℕ) (rest : Text) → IsApart q rest → scan m q (q ∷ rest) ≡ some ([], rest)
unfolding scan
scan_end m q [] h = ground arith
scan_end m q (c ∷ rest) h = ground arith

scan_quote : (m : Quoting) (q : ℕ) (s : Text) → scan m q (q ∷ q ∷ s) ≡ prepend q (scan m q s)
unfolding scan
scan_quote m q s = ground arith

scan_char :
    (m : Quoting) (q c : ℕ) (s : Text)
    → (c == q) ≡ false
    → is_escape m c ≡ false
    → s ≢ []
    → scan m q (c ∷ s) ≡ prepend c (scan m q s)
unfolding scan
scan_char m q c [] h e n = absurd (n refl)
scan_char m q c (d ∷ s) h e n = rw (h, e)

ne-nil : (s rest : Text) (q : ℕ) → s ++ q ∷ rest ≢ []
ne-nil [] rest q = cc
ne-nil (c ∷ s) rest q = cc

scan-double :
    (m : Quoting) (q : ℕ) (s rest : Text)
    → IsPlain m s
    → IsApart q rest
    → scan m q (double q s ++ q ∷ rest) ≡ some (s, rest)
unfolding double
scan-double m q [] rest p h = scan_end m q rest h
scan-double m q (c ∷ s) rest (e, p) h = elim (Bool-cases (c == q)) [
  | inl y ↦
      rw y (
        rw (scan_quote, scan-double m q s rest p h)
          (let same : c ≡ q = (==_iff c q).0 y in rw same))
  | inr n ↦ rw n (
      rw (
        scan_char m q c (double q s ++ q ∷ rest) n e (ne-nil (double q s) rest q),
        scan-double m q s rest p h,
      ))
]

-- A text in quotes is read back whole by the rules of SQL, whatever it holds, and so it is where a
-- backslash is an escape if it holds none; what follows it is left, unless that begins with the
-- quote.
pub read_quoted-quote :
    (m : Quoting) (q : ℕ) (s rest : Text)
    → IsPlain m s
    → IsApart q rest
    → read_quoted m q (quote q s ++ rest) ≡ some (s, rest)
unfolding read_quoted quote
read_quoted-quote m q s rest p h =
    let same : (q == q) ≡ true = (==_iff q q).1 refl in
    rw (same, append_assoc, scan-double m q s rest p h)

double_other : (q c : ℕ) (s : Text) → (c == q) ≡ false → double q (c ∷ s) ≡ c ∷ double q s
unfolding double
double_other q c s h = rw h refl

double_quote : (q : ℕ) (s : Text) → double q (q ∷ s) ≡ q ∷ q ∷ double q s
unfolding double
double_quote q s = ground arith

scan_escape :
    (q d : ℕ) (s : Text)
    → (b'\\' == q) ≡ false
    → scan backslashes q (b'\\' ∷ d ∷ s) ≡ prepend d (scan backslashes q s)
unfolding scan
scan_escape q d s h = ground (arith, h)

-- Where a backslash is an escape, a value that begins with a backslash and a quote, and goes on with
-- some other character, ends its quotes after these two: the rest of the value is left of the input.
pub read_quoted-quote_early :
    (q c : ℕ) (s : Text)
    → (b'\\' == q) ≡ false
    → (c == q) ≡ false
    → read_quoted backslashes q (quote q (b'\\' ∷ q ∷ c ∷ s))
      ≡ some (q ∷ [], c ∷ (double q s ++ q ∷ []))
unfolding read_quoted quote
read_quoted-quote_early q c s h n =
    let same : (q == q) ≡ true = (==_iff q q).1 refl in
    let doubled : double q (b'\\' ∷ q ∷ c ∷ s) ≡ b'\\' ∷ q ∷ q ∷ c ∷ double q s =
      double_other q b'\\' (q ∷ c ∷ s) h
      ∙ ap (λ t. b'\\' ∷ t) (double_quote q (c ∷ s) ∙ ap (λ t. q ∷ q ∷ t) (double_other q c s n)) in
    rw (same, doubled)
      (scan_escape q q (q ∷ c ∷ (double q s ++ q ∷ [])) h
        ∙ ap (prepend q) (scan_end backslashes q (c ∷ (double q s ++ q ∷ [])) n))
