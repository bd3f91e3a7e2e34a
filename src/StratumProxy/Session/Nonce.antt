-- ===== src/StratumProxy/Session/Nonce.antt =====
-- The worker byte of crates/stratum-proxy/src/session.rs: what is stamped into the blob of a job comes
-- back in the nonce, and tells the connections apart.
use cr_faucet.Common.{
  ℕ, zero, suc, ◌+◌, ◌/◌, ◌%◌, ◌≤◌, ◌<◌, ◌≡◌, ◌≢◌, true, false, some, List, [], ◌∷◌, ◌++◌, Bytes,
  length, take, drop, length-append, length-take, length-drop, All, arith, refl, ap, sym, ◌∙◌, ltb,
}
use mathlib.Core.List.{append_assoc}
use cr_faucet.StratumProxy.Session.{
  hex_digit, hex_byte, nonce_hi_hex, is_char_boundary, stamp_worker_byte, to_digit, parse_byte,
  nonce_high_byte, next_worker,
}

-- The text of a blob is ASCII.
abbrev pub IsAscii : Bytes → Type 0
IsAscii = All (λ c. c < 128)

to_digit-hex_digit : (n : ℕ) → n < 16 → to_digit (hex_digit n) ≡ some n
unfolding to_digit
to_digit-hex_digit n h = ground arith

parse_byte-hex_byte : (b : ℕ) → b < 256 → parse_byte (hex_byte b) ≡ some b
unfolding parse_byte
parse_byte-hex_byte b h =
    let hi = to_digit-hex_digit (b / 16) (omega arith) in
    let lo = to_digit-hex_digit (b % 16) (omega arith) in ground (arith, hi, lo)

pub starts_char-drop : (i : ℕ) (s : Bytes) → IsAscii s → is_char_boundary s i ≡ true
starts_char-drop zero [] h = refl
starts_char-drop zero (c ∷ s) h = ground (arith, h.0)
starts_char-drop (suc i) [] h = refl
starts_char-drop (suc i) (c ∷ s) h = starts_char-drop i s h.1

-- Whatever the miner puts in the other three bytes, the high byte is read back.
pub nonce_high_byte-hex_byte :
    (low : Bytes) (b : ℕ)
    → length low ≡ 6
    → b < 256
    → nonce_high_byte (low ++ hex_byte b) ≡ some (some b)
unfolding nonce_high_byte
nonce_high_byte-hex_byte (c ∷ d ∷ e ∷ f ∷ g ∷ i ∷ []) b six h =
    let p = parse_byte-hex_byte b h in ground (arith, p)
nonce_high_byte-hex_byte [] b six h = absurd (omega (arith, six))
nonce_high_byte-hex_byte (_ ∷ []) b six h = absurd (omega (arith, six))
nonce_high_byte-hex_byte (_ ∷ _ ∷ []) b six h = absurd (omega (arith, six))
nonce_high_byte-hex_byte (_ ∷ _ ∷ _ ∷ []) b six h = absurd (omega (arith, six))
nonce_high_byte-hex_byte (_ ∷ _ ∷ _ ∷ _ ∷ []) b six h = absurd (omega (arith, six))
nonce_high_byte-hex_byte (_ ∷ _ ∷ _ ∷ _ ∷ _ ∷ []) b six h = absurd (omega (arith, six))
nonce_high_byte-hex_byte (_ ∷ _ ∷ _ ∷ _ ∷ _ ∷ _ ∷ _ ∷ _) b six h = absurd (omega (arith, six))

take-append_eq : {A : Type 0} (n : ℕ) (xs ys : List A) → length xs ≡ n → take n (xs ++ ys) ≡ xs
take-append_eq zero [] ys h = refl
take-append_eq zero (x ∷ xs) ys h = absurd (omega (arith, h))
take-append_eq (suc n) [] ys h = absurd (omega (arith, h))
take-append_eq (suc n) (x ∷ xs) ys h = ap (λ t. x ∷ t) (take-append_eq n xs ys (omega (arith, h)))

drop-append_eq : {A : Type 0} (n : ℕ) (xs ys : List A) → length xs ≡ n → drop n (xs ++ ys) ≡ ys
drop-append_eq zero [] ys h = refl
drop-append_eq zero (x ∷ xs) ys h = absurd (omega (arith, h))
drop-append_eq (suc n) [] ys h = absurd (omega (arith, h))
drop-append_eq (suc n) (x ∷ xs) ys h = drop-append_eq n xs ys (omega (arith, h))

not_ltb : (m n : ℕ) → n ≤ m → ltb m n ≡ false
not_ltb m n h = ground arith

-- A blob that can hold a nonce keeps its length and every character but the two of the high byte.
pub Stamped : Bytes → ℕ → Bytes → Type 0
Stamped blob b out =
    (length out ≡ length blob)
    × (take nonce_hi_hex out ≡ take nonce_hi_hex blob)
    × (take 2 (drop nonce_hi_hex out) ≡ hex_byte b)
    × (drop (nonce_hi_hex + 2) out ≡ drop (nonce_hi_hex + 2) blob)

module _ (blob : Bytes) (b : ℕ) where
  stamped : Bytes
  stamped = take nonce_hi_hex blob ++ (hex_byte b ++ drop (nonce_hi_hex + 2) blob)

  stamp_runs :
      nonce_hi_hex + 2 ≤ length blob → IsAscii blob → stamp_worker_byte blob b ≡ some stamped
  unfolding stamp_worker_byte stamped
  stamp_runs long ascii =
      let lo = starts_char-drop nonce_hi_hex blob ascii in
      let hi = starts_char-drop (nonce_hi_hex + 2) blob ascii in
      let fits : ltb (length blob) (nonce_hi_hex + 2) ≡ false =
        not_ltb (length blob) (nonce_hi_hex + 2) long in
      rw (fits, lo, hi) refl

  length-head : nonce_hi_hex + 2 ≤ length blob → length (take nonce_hi_hex blob) ≡ nonce_hi_hex
  length-head long = omega (arith, length-take nonce_hi_hex blob)

  stamped-Stamped : nonce_hi_hex + 2 ≤ length blob → Stamped blob b stamped
  unfolding Stamped stamped
  stamped-Stamped long =
      let rest = drop (nonce_hi_hex + 2) blob in
      let head = take nonce_hi_hex blob in
      let whole = length-append head (hex_byte b ++ rest) in
      let n = length-head long in
      let m = length-drop (nonce_hi_hex + 2) blob in
      (
        omega (arith, whole, n, m),
        take-append_eq nonce_hi_hex head _ n,
        ap (take 2) (drop-append_eq nonce_hi_hex head _ n),
        ap (drop (nonce_hi_hex + 2)) (sym (append_assoc head (hex_byte b) rest))
            ∙ drop-append_eq (nonce_hi_hex + 2) (head ++ hex_byte b) rest
                (omega (arith, n, length-append head (hex_byte b))),
      )

-- A connection stamps its worker byte into every blob that it serves: the blob keeps its length and
-- all its characters but those two; and whatever the miner puts in the six characters below it, the
-- byte is read back from the nonce. The blob is long enough to hold a nonce, and its text is ASCII.
pub stamp_roundtrip :
    (blob low : Bytes) (b : ℕ)
    → nonce_hi_hex + 2 ≤ length blob
    → IsAscii blob
    → b < 256
    → length low ≡ 6
    → (out : Bytes) × (stamp_worker_byte blob b ≡ some out)
      × Stamped blob b out
      × (nonce_high_byte (low ++ take 2 (drop nonce_hi_hex out)) ≡ some (some b))
unfolding Stamped
stamp_roundtrip blob low b long ascii h six =
    let s = stamped-Stamped blob b long in
    (
      stamped blob b,
      stamp_runs blob b long ascii,
      s,
      ap (λ t. nonce_high_byte (low ++ t)) s.2 ∙ nonce_high_byte-hex_byte low b six h,
    )

some_inj : {A : Type 0} {a b : A} → some (some a) ≡ some (some b) → a ≡ b
some_inj p = cc

-- The counter after so many connections, and the byte of the next one.
pub worker_seq : ℕ → ℕ
worker_seq zero = 0
worker_seq (suc n) = (next_worker (worker_seq n)).1

pub worker_of : ℕ → ℕ
worker_of n = (next_worker (worker_seq n)).0

worker_seq_lem : (n : ℕ) → worker_seq n ≡ n % 256
unfolding worker_seq next_worker
worker_seq_lem zero = omega arith
worker_seq_lem (suc n) = omega (arith, worker_seq_lem n)

worker_of_lem : (n : ℕ) → worker_of n ≡ n % 256
unfolding worker_of next_worker
worker_of_lem n = worker_seq_lem n

-- Of any 256 connections in a row, no two share a nonce: the nonces that keep the bytes of two
-- of them differ, whatever the miners put in the other six characters.
pub slices_disjoint :
    (i j : ℕ) (low low' : Bytes)
    → i < j
    → j < i + 256
    → length low ≡ 6
    → length low' ≡ 6
    → low ++ hex_byte (worker_of i) ≢ low' ++ hex_byte (worker_of j)
slices_disjoint i j low low' h k six six' e =
    let p = worker_of_lem i in
    let q = worker_of_lem j in
    let a = nonce_high_byte-hex_byte low (worker_of i) six (omega (arith, p)) in
    let b = nonce_high_byte-hex_byte low' (worker_of j) six' (omega (arith, q)) in
    let same : worker_of i ≡ worker_of j = some_inj (sym a ∙ (ap nonce_high_byte e ∙ b)) in
    omega (arith, same, p, q)
