-- ===== src/Service/Sample.antt =====
-- A sample libc, and a file system of nothing but sockets, to run the service functions.
use native.Mathlib.Nat.{pow-suc}
use libtvnet.Base.{
  ap, zero, suc, ◌+◌, ◌-◌, ◌*◌, ◌/◌, ◌%◌, ◌^◌, ◌<◌, ◌∙◌, ◌++◌, append_assoc, length, length-append,
  All, ℕ, ◌≡◌, ◌≢◌, refl, sym, List, [], ◌∷◌, Option, none, some, arith, ℤ, pos, negsuc, Bool, true,
  false, Bool-cases, inl, inr, if◌then◌else◌, ◌==◌,
}
use mathlib.Core.Option.{some-injective}
use libtvnet.Service.Calls.{enoent}
use libtvnet.Service.Libc.{Libc, absolute}
use libtvnet.Service.Kernel.{Kernel, released}

-- the `k` low decimal digits
abbrev pub decimal : ℕ → ℕ → List ℕ
decimal zero v = []
decimal (suc k) v = decimal k (v / 10) ++ (suc (47 + v % 10) ∷ [])

abbrev pub read_decimal : ℕ → List ℕ → Option ℕ
read_decimal v [] = none
read_decimal v (zero ∷ cs) = some v
read_decimal v (suc c ∷ cs) = read_decimal (v * 10 + (c - 47)) cs

pub length-decimal : (k v : ℕ) → length (decimal k v) ≡ k
length-decimal zero v = refl
length-decimal (suc k) v =
    omega (
      arith,
      length-append (decimal k (v / 10)) (suc (47 + v % 10) ∷ []),
      length-decimal k (v / 10),
    )

All-append :
    (xs ys : List ℕ) → All (λ c. 0 < c) xs → All (λ c. 0 < c) ys → All (λ c. 0 < c) (xs ++ ys)
All-append [] ys h k = k
All-append (x ∷ xs) ys (h, hs) k = (h, All-append xs ys hs k)

pub decimal-text : (k v : ℕ) → All (λ c. 0 < c) (decimal k v)
decimal-text zero v = tt
decimal-text (suc k) v =
    All-append (decimal k (v / 10)) _ (decimal-text k (v / 10)) (omega arith, tt)

pub read_decimal-decimal :
    (k v : ℕ) (tail : List ℕ)
    → v < 10 ^ k
    → read_decimal 0 (decimal k v ++ tail) ≡ read_decimal v tail
read_decimal-decimal zero v tail h = ap (λ n. read_decimal n tail) (omega arith)
read_decimal-decimal (suc k) v tail h =
    let c : ℕ = suc (47 + v % 10) in
    ap (read_decimal 0) (append_assoc (decimal k (v / 10)) (c ∷ []) tail)
    ∙ read_decimal-decimal k (v / 10) (c ∷ tail) (omega (arith, pow-suc 10 k))
    ∙ ap (λ n. read_decimal n tail) (omega arith)

instance abbrev pub sample_libc : Libc
sample_libc = record {
  abs = absolute;
  digits = decimal 19;
  scan = read_decimal 0;
  abs_lem = λ x h. refl;
  length-digits = λ n h. length-decimal 19 n;
  digits-text = decimal-text 19;
  scan-digits = λ n rest h. read_decimal-decimal 19 n (0 ∷ rest) (omega arith);
}

abbrev pub same_name : List ℕ → List ℕ → Bool
same_name [] [] = true
same_name (c ∷ s) (d ∷ t) = if c == d then same_name s t else false
same_name _ _ = false

pub same_name_refl : (s : List ℕ) → same_name s s ≡ true
same_name_refl [] = refl
same_name_refl (c ∷ s) = ground (arith, same_name_refl s)

pub same_name-true : (s t : List ℕ) → same_name s t ≡ true → s ≡ t
same_name-true [] [] e = refl
same_name-true (c ∷ s) (d ∷ t) e = elim (Bool-cases (c == d)) [
  | inl same ↦
      let tails : same_name s t ≡ true = rw same at e in
      let heads : ◌≡◌ {A = ℕ} c d = ground arith in rw (heads, same_name-true s t tails) refl
  | inr different ↦ absurd (cc (e, different))
]
same_name-true [] (d ∷ t) e = absurd (cc e)
same_name-true (c ∷ s) [] e = absurd (cc e)

pub same_name-false : (s t : List ℕ) → s ≢ t → same_name s t ≡ false
same_name-false s t d = elim (Bool-cases (same_name s t)) [
  | inl e ↦ absurd (d (same_name-true s t e))
  | inr e ↦ e
]

abbrev pub Files : Type 0
Files = List ℕ → Option ℕ

abbrev pub put_file : List ℕ → Option ℕ → Files → Files
put_file name v files other = if same_name name other then v else files other

-- ENOENT for a file that is not there
abbrev pub errno_of : Option ℕ → Option ℕ
errno_of none = some enoent
errno_of (some fd) = none

-- by what the name is one of
abbrev pub bind_at : ℕ → List ℕ → Files → Option ℕ → ℤ × Files
bind_at fd name files none = (pos 0, put_file name (some fd) files)
bind_at fd name files (some old) = (negsuc 0, files)

pub errno_of-enoent : (o : Option ℕ) (errno : ℕ) → errno_of o ≡ some errno → errno ≡ enoent
errno_of-enoent none errno e = sym (some-injective enoent errno e)
errno_of-enoent (some fd) errno e = absurd (cc e)

pub bind_at-names :
    (fd : ℕ) (name : List ℕ) (files : Files) (o : Option ℕ)
    → (bind_at fd name files o).0 ≡ pos 0
    → (bind_at fd name files o).1 name ≡ some fd
bind_at-names fd name files none e = rw (same_name_refl name) refl
bind_at-names fd name files (some old) e = absurd (cc e)

pub bind_at-kept :
    (fd : ℕ) (name : List ℕ) (files : Files) (o : Option ℕ)
    → (bind_at fd name files o).0 ≢ pos 0
    → (bind_at fd name files o).1 name ≡ files name
bind_at-kept fd name files none d = absurd (d refl)
bind_at-kept fd name files (some old) d = refl

pub bind_at-other :
    (fd : ℕ) (name other : List ℕ) (files : Files) (o : Option ℕ)
    → name ≢ other
    → (bind_at fd name files o).1 other ≡ files other
bind_at-other fd name other files none d = rw (same_name-false name other d) refl
bind_at-other fd name other files (some old) d = refl

abbrev pub sample_kernel : Kernel
sample_kernel = record {
  State = Files;
  lookup = λ files name. files name;
  unlink = λ name files. (errno_of (files name), put_file name none files);
  bind = λ fd name files. bind_at fd name files (files name);
  close = λ fd files name. released fd (files name);
  close-released = λ fd name files. refl;
  unlink-gone = λ name files e. rw (same_name_refl name) refl;
  unlink-kept = λ name files errno e d. absurd (d (errno_of-enoent (files name) errno e));
  unlink-other = λ name other files d. rw (same_name-false name other d) refl;
  bind-names = λ fd name files. bind_at-names fd name files (files name);
  bind-kept = λ fd name files. bind_at-kept fd name files (files name);
  bind-other = λ fd name other files. bind_at-other fd name other files (files name);
}
