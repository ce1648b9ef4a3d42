-- ===== src/Service/Names.antt =====
-- The names that the service functions bind and unlink, as a map from numbers to sockets.
use libtvnet.Base.{
  ℕ, ◌+◌, ◌-◌, ◌^◌, ◌<◌, ◌≡◌, ◌≢◌, refl, ap, ◌∙◌, inl, inr, ◌⊎◌, List, [], ◌∷◌, ◌++◌, append_assoc,
  Option, none, some, length, length-append, drop, take, take-append, arith, ℤ, pos, negsuc, true,
  false, Bool-cases, if◌then◌else◌, IsText, until_nul, until_nul-append,
}
use libtvnet.Service.Libc.{absolute, Libc}
use libtvnet.Service.Unix.{addrlen, path_text}
use libtvnet.Service.Addresses.{path_text-injective}
use libtvnet.Service.Numbers.{address_of, made}
use libtvnet.Service.Calls.{unlink, bind, enoent, service_bind, service_sendto}
use libtvnet.Service.Kernel.{Kernel, name_of, same_number}
use libtvnet.Service.Registry.{
  Registry, update, is_gone, same_number-true, same_number-false, destination,
}

module _ ⦃libc : Libc⦄ (kernel : Kernel) (stack : List ℕ) (size : length stack + 2 ≡ addrlen) where
  path-IsText : (x : ℤ) → IsText (path_text x)
  unfolding path_text
  path-IsText (pos n) = ground (arith, libc.digits-text (libc.abs (pos n)))
  path-IsText (negsuc n) = ground (arith, libc.digits-text (libc.abs (negsuc n)))

  pub until_nul_address : (x : ℤ) → until_nul (address_of x stack) ≡ some (path_text x)
  until_nul_address x = until_nul-append (path_text x) _ (path-IsText x)

  pub name_of_address :
      (x : ℤ) → name_of (address_of x stack) (2 + length (path_text x) + 1) ≡ some (path_text x)
  name_of_address x =
      let text : List ℕ = path_text x in
      let rest : List ℕ = drop (length text + 1) stack in
      let count : 2 + length text + 1 - 2 ≡ length (text ++ (0 ∷ [])) =
        omega (arith, length-append text (0 ∷ [])) in
      let taken : take (2 + length text + 1 - 2) (address_of x stack) ≡ text ++ (0 ∷ []) =
        rw (count, ← append_assoc text (0 ∷ []) rest) (take-append (text ++ (0 ∷ [])) rest) in
      rw taken (until_nul-append text [] (path-IsText x))

  pub destination_lem :
      (s : kernel.State) (x sent : ℤ) (data_bytes : List ℕ)
      → absolute x < 2 ^ 63
      → destination kernel stack s x sent data_bytes ≡ some (kernel.lookup s (path_text x))
  unfolding service_sendto
  destination_lem s x sent data_bytes h = rw (made x stack h size, name_of_address x) refl

  -- the same of the files
  abbrev pub Names : kernel.State → Registry → Type 0
  Names s reg = (x : ℤ) → absolute x < 2 ^ 63 → kernel.lookup s (path_text x) ≡ reg x

  paths_differ :
      (x y : ℤ)
      → absolute x < 2 ^ 63
      → absolute y < 2 ^ 63
      → same_number x y ≡ false
      → path_text x ≢ path_text y
  paths_differ x y h k e same = same_number-false x y e (path_text-injective x y h k same)

  pub Names-updated :
      (x : ℤ) (v : Option ℕ) (s s' : kernel.State) (reg : Registry)
      → absolute x < 2 ^ 63
      → kernel.lookup s' (path_text x) ≡ v
      → ((other : List ℕ) → path_text x ≢ other → kernel.lookup s' other ≡ kernel.lookup s other)
      → Names s reg
      → Names s' (update x v reg)
  Names-updated x v s s' reg h new old named y k = elim (Bool-cases (same_number x y)) [
    | inl e ↦ rw (e, ← same_number-true x y e) new
    | inr e ↦ rw e (old (path_text y) (paths_differ x y h k e) ∙ named y k)
  ]

  pub is_gone_cases : (u : Option ℕ) → is_gone u ≡ true → (u ≡ none) ⊎ (u ≡ some enoent)
  is_gone_cases none e = inl refl
  is_gone_cases (some n) e = inr (ap some (ground arith))

  pub is_gone_not :
      (u : Option ℕ) → is_gone u ≡ false → (errno : ℕ) × (u ≡ some errno) × (errno ≢ enoent)
  is_gone_not none e = absurd (cc e)
  is_gone_not (some n) e =
      let different : n ≢ enoent = λ same. ground (arith, same) in (n, refl, different)

  pub Names-kept :
      (x : ℤ) (s s' : kernel.State) (reg : Registry)
      → absolute x < 2 ^ 63
      → kernel.lookup s' (path_text x) ≡ kernel.lookup s (path_text x)
      → ((other : List ℕ) → path_text x ≢ other → kernel.lookup s' other ≡ kernel.lookup s other)
      → Names s reg
      → Names s' reg
  Names-kept x s s' reg h same old named y k = elim (Bool-cases (same_number x y)) [
    | inl e ↦ rw (← same_number-true x y e) (same ∙ named x h)
    | inr e ↦ old (path_text y) (paths_differ x y h k e) ∙ named y k
  ]

  pub service_bind-gone :
      (x : ℤ) (unlinked : Option ℕ) (bound : ℤ)
      → absolute x < 2 ^ 63
      → is_gone unlinked ≡ true
      → service_bind stack unlinked bound x
        ≡ some (
          bound,
          unlink (address_of x stack)
              ∷ bind (address_of x stack) (2 + length (path_text x) + 1)
              ∷ [],
        )
  unfolding service_bind
  service_bind-gone x none bound h e = rw (made x stack h size) refl
  service_bind-gone x (some n) bound h e = rw (made x stack h size, e) refl

  pub service_bind-stays :
      (x : ℤ) (unlinked : Option ℕ) (bound : ℤ)
      → absolute x < 2 ^ 63
      → is_gone unlinked ≡ false
      → service_bind stack unlinked bound x ≡ some (negsuc 0, unlink (address_of x stack) ∷ [])
  unfolding service_bind
  service_bind-stays x none bound h e = absurd (cc e)
  service_bind-stays x (some n) bound h e = rw (made x stack h size, e) refl

  pub bound_name :
      (fd : ℕ) (name : List ℕ) (s : kernel.State)
      → kernel.lookup s name ≡ none
      → kernel.lookup (kernel.bind fd name s).1 name
        ≡ (if same_number (kernel.bind fd name s).0 (pos 0) then some fd else none)
  bound_name fd name s free = elim (Bool-cases (same_number (kernel.bind fd name s).0 (pos 0))) [
    | inl e ↦ rw e (kernel.bind-names fd name s (same_number-true _ _ e))
    | inr e ↦ rw e (kernel.bind-kept fd name s (same_number-false _ _ e) ∙ free)
  ]
