-- ===== src/Net/Ipv4/Checksum.antt =====
-- net/ipv4/ipv4.h: `checksum`, beside the checksum of RFC 791.
use launch_core.Prelude.{
  ℕ, zero, suc, ◌+◌, ◌-◌, ◌*◌, ◌/◌, ◌%◌, ◌^◌, ◌≤◌, ◌<◌, ◌≡◌, ◌≢◌, refl, ◌∙◌, List, [], ◌∷◌, ◌++◌,
  get_or, length, arith,
}

-- The loop of `checksum`, from word `i` on with `n` more turns; `sum` is a `uint16_t`.
pub checksum_loop : List ℕ → ℕ → ℕ → ℕ → ℕ
checksum_loop words i zero sum = sum
checksum_loop words i (suc n) sum =
    checksum_loop words (suc i) n ((sum + get_or words i 0) % 2 ^ 16)

-- `data` is read in words of 16 bits; `len` is its length in bytes.
unfoldable pub checksum : List ℕ → ℕ → ℕ
unfolding checksum_loop
checksum words len = 65535 - checksum_loop words 0 (len / 2) 0

abbrev pub sum_words : List ℕ → ℕ
sum_words [] = 0
sum_words (word ∷ words) = word + sum_words words

-- RFC 791: the one's complement of the one's complement sum, where a carry is added again.
pub fold_carries : ℕ → ℕ
fold_carries sum = let once = sum % 65536 + sum / 65536 in once % 65536 + once / 65536

abbrev pub rfc_checksum : List ℕ → ℕ
rfc_checksum words = 65535 - fold_carries (sum_words words)

checksum_loop-cons :
    (word : ℕ) (words : List ℕ) (i n sum : ℕ)
    → checksum_loop (word ∷ words) (suc i) n sum ≡ checksum_loop words i n sum
unfolding checksum_loop
checksum_loop-cons word words i zero sum = refl
checksum_loop-cons word words i (suc n) sum =
    checksum_loop-cons word words (suc i) n ((sum + get_or words i 0) % 2 ^ 16)

checksum_loop-sum_words :
    (words : List ℕ) (sum : ℕ)
    → sum < 2 ^ 16
    → checksum_loop words 0 (length words) sum ≡ (sum + sum_words words) % 2 ^ 16
unfolding checksum_loop
checksum_loop-sum_words [] sum h = omega arith
checksum_loop-sum_words (word ∷ words) sum h =
    checksum_loop-cons word words 0 (length words) ((sum + word) % 2 ^ 16)
    ∙ checksum_loop-sum_words words ((sum + word) % 2 ^ 16) (omega arith)
    ∙ omega arith

half : (n : ℕ) → 2 * n / 2 ≡ n
half n = omega arith

checksum-sum_words :
    (words : List ℕ) → checksum words (2 * length words) ≡ 65535 - sum_words words % 2 ^ 16
unfolding checksum
checksum-sum_words words =
    rw (half (length words)) (omega (arith, checksum_loop-sum_words words 0 (omega arith)))

-- The checksum of a header is RFC 791's if the sum of its words does not carry. It is not if the
-- words' sum carries once: then it is one more.
pub checksum-carry :
    (words : List ℕ)
    → (sum_words words < 2 ^ 16 → checksum words (2 * length words) ≡ rfc_checksum words)
      × (2 ^ 16 ≤ sum_words words
          → sum_words words < 2 ^ 17 - 1
          → checksum words (2 * length words) ≡ suc (rfc_checksum words))
unfolding fold_carries
checksum-carry words =
    let e = checksum-sum_words words in (λ h. omega (arith, e), λ h h'. omega (arith, e))

sum_words-middle :
    (before : List ℕ) (word : ℕ) (after : List ℕ)
    → sum_words (before ++ word ∷ after) ≡ word + (sum_words before + sum_words after)
sum_words-middle [] word after = omega arith
sum_words-middle (b ∷ before) word after = omega (arith, sum_words-middle before word after)

-- One word of a header changes, and the checksum changes with it.
checksum-detects :
    (before after : List ℕ) (word word' : ℕ)
    → word < 2 ^ 16
    → word' < 2 ^ 16
    → word ≢ word'
    → checksum (before ++ word ∷ after) (2 * length (before ++ word ∷ after))
      ≢ checksum (before ++ word' ∷ after) (2 * length (before ++ word' ∷ after))
checksum-detects before after word word' h h' differ same =
    let e = checksum-sum_words (before ++ word ∷ after) in
    let e' = checksum-sum_words (before ++ word' ∷ after) in
    differ (omega (arith, sum_words-middle before word after, sum_words-middle before word' after))
