-- ===== src/Signaling/Codes/Distinct.antt =====
-- Codes are short, and different draws give different codes.
use p2pft.Prelude.{
  ℕ, zero, suc, ◌+◌, ◌≤◌, ◌<◌, ◌≡◌, refl, sym, ◌∙◌, true, false, Bool, ◌&&◌, not, [], ◌∷◌, ◌++◌,
  ◌==◌, leb, length, Text, eqb_text, eqb_text_iff, ◌||◌, arith, length-append,
}
use p2pft.Io.Result.{Result, ok, err}
use p2pft.Signaling.Codes.{wordlist, word_at, pick, join, generate_code}

abbrev dash : ℕ
dash = b'-'

abbrev no_dash : Text → Bool
no_dash [] = true
no_dash (c ∷ w) = not (c == dash) && no_dash w

-- A text without a dash ends at the first dash behind it.
no_dash-split :
    (a b x y : Text)
    → no_dash a ≡ true
    → no_dash b ≡ true
    → a ++ dash ∷ x ≡ b ++ dash ∷ y
    → (a ≡ b) × (x ≡ y)
no_dash-split [] [] x y ha hb e = (refl, cc e)
no_dash-split [] (c ∷ b) x y ha hb e = ground arith
no_dash-split (c ∷ a) [] x y ha hb e = ground arith
no_dash-split (c ∷ a) (d ∷ b) x y ha hb e = ground (arith, no_dash-split a b x y)

abbrev word_of : Result Text → Text
word_of (ok w) = w
word_of (err e) = []

abbrev is_ok : Result Text → Bool
is_ok (ok w) = true
is_ok (err e) = false

-- The word of an index in range.
abbrev word : ℕ → Text
word n = word_of (word_at wordlist n)

all_below : ℕ → (ℕ → Bool) → Bool
all_below zero p = true
all_below (suc n) p = p n && all_below n p

all_below-lt : (n : ℕ) (p : ℕ → Bool) → all_below n p ≡ true → (i : ℕ) → i < n → p i ≡ true
unfolding all_below
all_below-lt zero p e i h = absurd (omega arith)
all_below-lt (suc n) p e i h = ground (arith, all_below-lt n p (ground arith) i)

abbrev good : ℕ → Bool
good n = is_ok (word_at wordlist n) && no_dash (word n) && leb (length (word n)) 8

good_table : all_below 32 good ≡ true
unfolding all_below
good_table = refl

abbrev apart : ℕ → ℕ → Bool
apart n m = not (eqb_text (word n) (word m)) || n == m

apart_table : all_below 32 (λ n. all_below 32 (apart n)) ≡ true
unfolding all_below
apart_table = refl

-- What is known of a word of the list.
record Word (n : ℕ) : Type 0 where
  picked : pick (ok n) ≡ ok (word n)
  plain : no_dash (word n) ≡ true
  short : length (word n) ≤ 8

ok-word : (r : Result Text) → is_ok r ≡ true → r ≡ ok (word_of r)
ok-word (ok w) h = refl
ok-word (err e) h = cc h

Word-of : (n : ℕ) → n < 32 → Word n
Word-of n h = parts (all_below-lt 32 good good_table n h)
  where
    parts : good n ≡ true → Word n
    parts g = record {
      picked = ok-word (word_at wordlist n) (ground arith);
      plain = ground arith;
      short = ground arith;
    }

word-injective : (n m : ℕ) → n < 32 → m < 32 → word n ≡ word m → n ≡ m
word-injective n m hn hm e =
    let t =
      all_below-lt 32 (apart n) (all_below-lt 32 (λ k. all_below 32 (apart k)) apart_table n hn) m
        hm in
    apart-eq (word n) (word m) n m e t
  where
    apart-eq : (v w : Text) (n m : ℕ) → v ≡ w → (not (eqb_text v w) || n == m) ≡ true → n ≡ m
    apart-eq v w n m e t = ground (arith, (eqb_text_iff v w).1 e)

generate_code-join :
    (i j k : ℕ)
    → i < 32
    → j < 32
    → k < 32
    → generate_code (ok i) (ok j) (ok k) ≡ ok (join (word i) (word j) (word k))
unfolding generate_code
generate_code-join i j k hi hj hk =
    rw ((Word-of i hi).picked, (Word-of j hj).picked, (Word-of k hk).picked) refl

length-join : (a b c : Text) → length (join a b c) ≡ length a + length b + length c + 2
length-join a b c =
    omega (arith, length-append a (dash ∷ (b ++ dash ∷ c)), length-append b (dash ∷ c))

-- Three draws in range give a code of at most 26 bytes.
pub generate_code-short :
    (i j k : ℕ)
    → i < 32
    → j < 32
    → k < 32
    → (c : Text) × (generate_code (ok i) (ok j) (ok k) ≡ ok c) × (length c ≤ 26)
generate_code-short i j k hi hj hk = (
  join (word i) (word j) (word k),
  generate_code-join i j k hi hj hk,
  omega (
    arith,
    length-join (word i) (word j) (word k),
    (Word-of i hi).short,
    (Word-of j hj).short,
    (Word-of k hk).short,
  ),
)

join-injective :
    (a b c a' b' c' : Text)
    → no_dash a ≡ true
    → no_dash a' ≡ true
    → no_dash b ≡ true
    → no_dash b' ≡ true
    → join a b c ≡ join a' b' c'
    → (a ≡ a') × (b ≡ b') × (c ≡ c')
join-injective a b c a' b' c' ha ha' hb hb' e =
    let (p, q) = no_dash-split a a' _ _ ha ha' e in
    let (r, s) = no_dash-split b b' _ _ hb hb' q in (p, r, s)

-- Draws in range that differ give different codes.
pub generate_code-injective :
    (i j k i' j' k' : ℕ)
    → (i < 32) × (j < 32) × (k < 32)
    → (i' < 32) × (j' < 32) × (k' < 32)
    → generate_code (ok i) (ok j) (ok k) ≡ generate_code (ok i') (ok j') (ok k')
    → (i ≡ i') × (j ≡ j') × (k ≡ k')
generate_code-injective i j k i' j' k' (hi, hj, hk) (hi', hj', hk') e =
    let same : ok (join (word i) (word j) (word k)) ≡ ok (join (word i') (word j') (word k')) =
      sym (generate_code-join i j k hi hj hk) ∙ e ∙ generate_code-join i' j' k' hi' hj' hk' in
    let (a, b, c) =
      join-injective (word i) (word j) (word k) (word i') (word j') (word k') (Word-of i hi).plain
        (Word-of i' hi').plain (Word-of j hj).plain (Word-of j' hj').plain (ok-injective same) in
    (word-injective i i' hi hi' a, word-injective j j' hj hj' b, word-injective k k' hk hk' c)
  where
    ok-injective : {a b : Text} → ok a ≡ ok b → a ≡ b
    ok-injective h = cc h
