-- ===== src/Pickle/At.antt =====
-- Reading a buffer at a place where given bytes stand.
use native.Mathlib.Nat.{add_assoc}
use libtvnet.Base.{
  ℕ, zero, suc, ◌+◌, ◌^◌, ◌≤◌, ◌<◌, ◌≡◌, refl, sym, ap, ◌∙◌, List, [], ◌∷◌, ◌++◌, some, length,
  length-append, arith, append_assoc, get_elem?, get_elem?-append, false, take, drop, take-append,
  drop-append, le→leb,
}
use mathlib.Core.Option.{some-injective}
use libtvnet.Buffer.Laws.{Stores, put-Stores, put-over}
use libtvnet.Buffer.{Buffer, put, past_end, load, advance}

pub past_end-no :
    (n : ℕ) (b : Buffer) → b.offset + n ≤ b.size → b.size < 2 ^ 63 → past_end n b ≡ false
unfolding past_end
past_end-no n b h big = ground arith

pub advance_lem :
    (n : ℕ) (b : Buffer) → b.offset + n < 2 ^ 64 → advance n b ≡ record b { offset = b.offset + n }
unfolding advance
advance_lem n b h = ground arith

-- the buffer behind `n` bytes
abbrev pub behind : ℕ → Buffer → Buffer
behind n b = record b { offset = b.offset + n }

-- `cs` stands at the offset of `b`.
pub record At (b : Buffer) (cs : List ℕ) : Type 0 where
  pub before : List ℕ
  pub after : List ℕ
  pub memory : b.data_bytes ≡ before ++ (cs ++ after)
  pub here : b.offset ≡ length before
  pub within : b.offset + length cs ≤ b.size
  pub big : b.size < 2 ^ 63

pub At-tail : {b : Buffer} {c : ℕ} {cs : List ℕ} → At b (c ∷ cs) → At (behind 1 b) cs
At-tail {b} {c} {cs} a = record {
  before = a.before ++ (c ∷ []);
  after = a.after;
  memory = a.memory ∙ sym (append_assoc a.before (c ∷ []) (cs ++ a.after));
  here = omega (arith, a.here, length-append a.before (c ∷ []));
  within = omega (arith, a.within);
  big = a.big;
}

pub At-room : {b : Buffer} {cs : List ℕ} → At b cs → b.offset + length cs ≤ length b.data_bytes
At-room {b} {cs} a = omega (
  arith,
  ap length a.memory,
  a.here,
  length-append a.before (cs ++ a.after),
  length-append cs a.after,
)

pub load-At : {b : Buffer} (cs : List ℕ) → At b cs → load (length cs) b ≡ some cs
unfolding load
load-At {b} cs a = rw (le→leb _ _ (At-room a), found) refl
  where
    found : take (length cs) (drop b.offset b.data_bytes) ≡ cs
    found = rw (a.memory, a.here, drop-append) (take-append cs a.after)

pub first-At :
    {b : Buffer} {c : ℕ} {cs : List ℕ} → At b (c ∷ cs) → get_elem? b.data_bytes b.offset ≡ some c
first-At {b} {c} {cs} a = rw (a.memory, a.here) (get_elem?-append a.before c (cs ++ a.after))

module _ {b : Buffer} {cs : List ℕ} (a : At b cs) {n : ℕ} (size : length cs ≡ n) where
  pub inside : past_end n b ≡ false
  inside = past_end-no n b (omega (arith, a.within)) a.big

  pub loaded : load n b ≡ some cs
  loaded = rw (← size) (load-At cs a)

  pub moved : advance n b ≡ behind n b
  moved = advance_lem n b (omega (arith, a.within, a.big))

pub At-prefix : {b : Buffer} (xs ys : List ℕ) → At b (xs ++ ys) → At b xs
At-prefix xs ys a = record {
  before = a.before;
  after = ys ++ a.after;
  memory = a.memory ∙ ap (λ l. a.before ++ l) (append_assoc xs ys a.after);
  here = a.here;
  within = omega (arith, a.within, length-append xs ys);
  big = a.big;
}

pub At-suffix : {b : Buffer} (xs ys : List ℕ) → At b (xs ++ ys) → At (behind (length xs) b) ys
At-suffix xs ys a = record {
  before = a.before ++ xs;
  after = a.after;
  memory =
      a.memory ∙ rw (append_assoc xs ys a.after, append_assoc a.before xs (ys ++ a.after)) refl;
  here = omega (arith, a.here, length-append a.before xs);
  within = omega (arith, a.within, length-append xs ys);
  big = a.big;
}

pub behind-behind : (m n : ℕ) (b : Buffer) → behind n (behind m b) ≡ behind (m + n) b
behind-behind m n b = rw (add_assoc b.offset m n) refl

-- Memory cut at an offset.
cut :
    {A : Type 0} (d : List A) (n : ℕ)
    → n ≤ length d
    → (before after : List A) × (d ≡ before ++ after) × (length before ≡ n)
cut d zero h = ([], d, refl, refl)
cut [] (suc n) h = absurd (omega arith)
cut (x ∷ d) (suc n) h =
    let (p, q, e, l) = cut d n (omega arith) in (x ∷ p, q, ap (λ r. x ∷ r) e, ap suc l)

-- What a successful store leaves: the bytes between what stood before and behind.
pub put-split :
    (xs : List ℕ) (b : Buffer) {b' : Buffer}
    → b.offset ≤ length b.data_bytes
    → put xs b ≡ some b'
    → (before after : List ℕ) × (b'.data_bytes ≡ before ++ (xs ++ after))
      × (b.offset ≡ length before)
      × (b'.offset ≡ b.offset + length xs)
      × (b'.size ≡ b.size)
put-split xs b {b'} room e =
    let stores : Stores (length xs) b (some b') = rw e at (put-Stores xs b room) in
    let (before, rest, d, l) = cut b.data_bytes b.offset room in
    let whole_size : length rest + b.offset ≡ length b.data_bytes =
      omega (arith, ap length d, length-append before rest) in
    let (old, after, r, k) = cut rest (length xs) (omega (arith, stores.0)) in
    let memory : b.data_bytes ≡ before ++ (old ++ after) = d ∙ ap (λ t. before ++ t) r in
    let start : b
        ≡ record { data_bytes = before ++ (old ++ after); offset = length before; size = b.size } =
      λ i. record { data_bytes = memory i; offset = sym l i; size = b.size } in
    let result =
      some-injective _ _ (sym e ∙ ap (put xs) start ∙ put-over before old xs after b.size k) in
    (before, after, ap (λ (t : Buffer). t.data_bytes) result, sym l, stores.1, stores.3)

-- Stored bytes stand where they were stored, and end where the store left the offset.
pub put-At :
    (xs : List ℕ) (b : Buffer) {b' : Buffer}
    → b.offset ≤ length b.data_bytes
    → put xs b ≡ some b'
    → b'.offset ≤ b'.size
    → b'.size < 2 ^ 63
    → At (record b' { offset = b.offset }) xs
      × (behind (length xs) (record b' { offset = b.offset }) ≡ b')
put-At xs b {b'} room e fits big =
    let (before, after, memory, l, o, s) = put-split xs b room e in
    (
      record {
        before = before;
        after = after;
        memory = memory;
        here = l;
        within = omega arith;
        big = big;
      },
      λ i. record b' { offset = sym o i },
    )
