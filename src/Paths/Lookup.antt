-- ===== src/Paths/Lookup.antt =====
-- dir_lookup of fs/fs.c on a directory whose blocks are in the cache.
use os_challenge_sudo_shell.Base.{
  ℕ, zero, suc, ◌+◌, ◌-◌, ◌*◌, ◌/◌, ◌%◌, ◌≤◌, ◌<◌, ◌≡◌, ◌≢◌, refl, sym, ap, ◌∙◌, true, false,
  Option, none, some, List, ltb, ◌==◌, Result, ok, err, e_not_found, arith, subst, Returns,
  Bool-cases, inl, inr, ltb→lt, attempt-ok, Returns-weaken,
}
use os_challenge_sudo_shell.Fs.{Fs}
use os_challenge_sudo_shell.Files.{Place, put, file_get_block}
use os_challenge_sudo_shell.Files.Cached.{Held, Cached, file_get_block-Held}
use os_challenge_sudo_shell.Files.Walk.{written}
use os_challenge_sudo_shell.Strings.{Sign, less, equal, greater, strcmp}
use os_challenge_sudo_shell.Strings.Order.{NonZero, strcmp-sign}
use os_challenge_sudo_shell.Paths.{
  name_byte, name_from, f_name, address, is_equal, find_name, name_found, lookup_blocks, dir_lookup,
}

name_from-NonZero : (n : ℕ) (f : Place) (j : ℕ) (s : Fs) → NonZero (name_from n f j s)
unfolding name_from
name_from-NonZero zero f j s = tt
name_from-NonZero (suc n) f j s =
    let ih = name_from-NonZero n f (j + 1) s in
    elim (Bool-cases (name_byte f j s == 0)) [
      | inl y ↦ rw y tt
      | inr x ↦ rw x (ground (arith, x), ih)
    ]

is_equal-equal : (x : Sign) → is_equal x ≡ true → x ≡ equal
unfolding is_equal
is_equal-equal less h = absurd (ground (arith, h))
is_equal-equal equal h = refl
is_equal-equal greater h = absurd (ground (arith, h))

-- The comparison in dir_lookup
same_name :
    (name : List ℕ) (f : Place) (s : Fs)
    → NonZero name
    → is_equal (strcmp name (f_name f s)) ≡ true
    → f_name f s ≡ name
same_name name f s u h =
    sym ((strcmp-sign name (f_name f s) u (name_from-NonZero 128 f 0 s)).0.0 (is_equal-equal _ h))

other_name :
    (name : List ℕ) (f : Place) (s : Fs)
    → NonZero name
    → is_equal (strcmp name (f_name f s)) ≡ false
    → f_name f s ≢ name
unfolding is_equal
other_name name f s u h e =
    absurd (
      ground
        (arith, h, (strcmp-sign name (f_name f s) u (name_from-NonZero 128 f 0 s)).0.1 (sym e)))

-- The outcome of a search: the first of the `count` entries from word `i` on with the name, or none.
FirstNamed : ℕ → ℕ → ℕ → List ℕ → Fs → Option Place → Type 0
FirstNamed count b i name s none = (e : ℕ) → e < count → f_name (b, i + e * 64) s ≢ name
FirstNamed count b i name s (some f) =
    (e : ℕ) × (e < count)
    × (f ≡ (b, i + e * 64))
    × (f_name f s ≡ name)
    × ((d : ℕ) → d < e → f_name (b, i + d * 64) s ≢ name)

module _ (name : List ℕ) (s : Fs) (u : NonZero name) where
  others :
      (b i e : ℕ)
      → is_equal (strcmp name (f_name (b, i) s)) ≡ false
      → ((d : ℕ) → d < e → f_name (b, i + 64 + d * 64) s ≢ name)
      → (d : ℕ) → d < suc e
      → f_name (b, i + d * 64) s ≢ name
  others b i e x k zero h =
      subst (λ j. f_name (b, j) s ≢ name) (omega arith) (other_name name (b, i) s u x)
  others b i e x k (suc d) h = subst (λ j. f_name (b, j) s ≢ name) (omega arith) (k d (omega arith))

  later :
      (count b i : ℕ) (r : Option Place)
      → is_equal (strcmp name (f_name (b, i) s)) ≡ false
      → FirstNamed count b (i + 64) name s r
      → FirstNamed (suc count) b i name s r
  unfolding FirstNamed
  later count b i none x k = others b i count x k
  later count b i (some f) x (e, l, q, y, k) =
      (suc e, omega (arith, l), q ∙ ap (λ j. (b, j)) (omega arith), y, others b i e x k)

  find_name-FirstNamed : (count b i : ℕ) → FirstNamed count b i name s (find_name count b i name s)
  unfolding find_name FirstNamed
  find_name-FirstNamed zero b i = λ e h. absurd (omega (arith, h))
  find_name-FirstNamed (suc count) b i =
      let rest = find_name-FirstNamed count b (i + 64) in
      elim (Bool-cases (is_equal (strcmp name (f_name (b, i) s)))) [
        | inl y ↦ rw y (
          0,
          omega arith,
          ap (λ j. (b, j)) (omega arith),
          same_name name (b, i) s u y,
          λ d h. absurd (omega (arith, h)),
        )
        | inr x ↦ rw x (later count b i (find_name count b (i + 64) name s) x rest)
      ]

-- Entry `k` of the directory at word `o` of block `b`
abbrev pub entry : ℕ → ℕ → Fs → ℕ → Place
entry b o s k = (s.cache b (o + (34 + k / 16)), k % 16 * 64)

-- The outcome of a search of the blocks from `i` on, `count` of them.
LookedFrom : ℕ → ℕ → ℕ → ℕ → List ℕ → Fs → Result Place → Fs → Type 0
LookedFrom count i b o name s (ok f) t =
    (k : ℕ) × (i * 16 ≤ k)
    × (k < (i + count) * 16)
    × (f ≡ entry b o s k)
    × (f_name f s ≡ name)
    × ((d : ℕ) → i * 16 ≤ d → d < k → f_name (entry b o s d) s ≢ name)
    × (t ≡ written (f.0) (f.1 + 45) (address (b, o)) s)
LookedFrom count i b o name s (err e) t =
    (e ≡ e_not_found)
    × ((d : ℕ) → i * 16 ≤ d → d < (i + count) * 16 → f_name (entry b o s d) s ≢ name)
    × (t ≡ s)

module _ (n b o : ℕ) (name : List ℕ) (s : Fs) (u : NonZero name) (q : s.super ≡ some n) where
  entry-at :
      (i d : ℕ)
      → i * 16 ≤ d
      → d < i * 16 + 16
      → ◌≡◌ {A = Place} (s.cache b (o + (34 + i)), 0 + (d - i * 16) * 64) (entry b o s d)
  entry-at i d h g =
      let x : i ≡ d / 16 = omega arith in
      let y : 0 + (d - i * 16) * 64 ≡ d % 16 * 64 = omega arith in
      λ z. (s.cache b (o + (34 + x z)), y z)

  -- The first `e` entries of block `i`
  in_block :
      (i e : ℕ)
      → e ≤ 16
      → ((d : ℕ) → d < e → f_name (s.cache b (o + (34 + i)), 0 + d * 64) s ≢ name)
      → (d : ℕ) → i * 16 ≤ d
      → d < i * 16 + e
      → f_name (entry b o s d) s ≢ name
  in_block i e l k d h g =
      subst (λ p. f_name p s ≢ name) (entry-at i d h (omega arith)) (k (d - i * 16) (omega arith))

  -- No entry of block `i` has the name, and the search goes on.
  from_next :
      (count i : ℕ) (r : Result Place) (t : Fs)
      → ((d : ℕ) → i * 16 ≤ d → d < i * 16 + 16 → f_name (entry b o s d) s ≢ name)
      → LookedFrom count (i + 1) b o name s r t
      → LookedFrom (suc count) i b o name s r t
  unfolding LookedFrom
  from_next count i (err e) t k (x, m, y) = (
    x,
    λ d h g. elim (Bool-cases (ltb d (i * 16 + 16))) [
      | inl l ↦ k d h (ltb→lt _ _ l)
      | inr l ↦ m d (ground (arith, l)) (omega arith)
    ],
    y,
  )
  from_next count i (ok f) t k (e, l, g, x, y, m, z) = (
    e,
    omega arith,
    omega arith,
    x,
    y,
    λ d h v. elim (Bool-cases (ltb d (i * 16 + 16))) [
      | inl w ↦ k d h (ltb→lt _ _ w)
      | inr w ↦ m d (ground (arith, w)) v
    ],
    z,
  )

  searched :
      (count i : ℕ) (r : Option Place)
      → FirstNamed 16 (s.cache b (o + (34 + i))) 0 name s r
      → Returns (lookup_blocks count (i + 1) (b, o) name s) (LookedFrom count (i + 1) b o name s)
      → Returns
          (name_found (lookup_blocks count (i + 1) (b, o) name) (b, o) r s)
          (LookedFrom (suc count) i b o name s)
  unfolding name_found FirstNamed put LookedFrom
  searched count i none k rest =
      Returns-weaken _ _ (lookup_blocks count (i + 1) (b, o) name s) rest
        λ r t h. from_next count i r t (in_block i 16 (omega arith) k) h
  searched count i (some f) (e, l, x, y, k) rest =
      let z : i * 16 + e - i * 16 ≡ e = omega arith in
      let at : f ≡ entry b o s (i * 16 + e) =
        x
        ∙ (ap (λ j. (s.cache b (o + (34 + i)), 0 + j * 64)) (sym z)
            ∙ entry-at i (i * 16 + e) (omega arith) (omega arith)) in
      (i * 16 + e, omega arith, omega arith, at, y, in_block i e (omega arith) k, refl)

  lookup_blocks-LookedFrom :
      (count i : ℕ)
      → ((j : ℕ) → i ≤ j → j < i + count → Held n b o j s)
      → Returns (lookup_blocks count i (b, o) name s) (LookedFrom count i b o name s)
  unfolding lookup_blocks LookedFrom
  lookup_blocks-LookedFrom zero i h = (refl, λ d l g. absurd (omega arith), refl)
  lookup_blocks-LookedFrom (suc count) i h =
      subst (λ x. Returns x (LookedFrom (suc count) i b o name s))
        (sym (
          attempt-ok (file_get_block (b, o) i) _ s _ s
            (file_get_block-Held n b o i s q (h i (omega arith) (omega arith)))))
        (searched count i _ (find_name-FirstNamed name s u 16 (s.cache b (o + (34 + i))) 0)
          (lookup_blocks-LookedFrom count (i + 1) λ j l g. h j (omega arith) (omega arith)))

-- The first entry with the name, whose f_dir is set; or no entry has the name, and nothing changes.
abbrev pub LookedUp : ℕ → ℕ → ℕ → List ℕ → Fs → Result Place → Fs → Type 0
LookedUp count b o name s (ok f) t =
    (k : ℕ) × (k < count * 16)
    × (f ≡ entry b o s k)
    × (f_name f s ≡ name)
    × ((d : ℕ) → d < k → f_name (entry b o s d) s ≢ name)
    × (t ≡ written (f.0) (f.1 + 45) (address (b, o)) s)
LookedUp count b o name s (err e) t =
    (e ≡ e_not_found) × ((d : ℕ) → d < count * 16 → f_name (entry b o s d) s ≢ name) × (t ≡ s)

looked :
    (count b o : ℕ) (name : List ℕ) (s : Fs) (r : Result Place) (t : Fs)
    → LookedFrom count 0 b o name s r t
    → LookedUp count b o name s r t
unfolding LookedFrom
looked count b o name s (ok f) t (k, l, g, x, y, m, z) =
    (k, omega arith, x, y, λ d h. m d (omega arith) h, z)
looked count b o name s (err e) t (x, m, y) = (x, λ d h. m d (omega arith) (omega arith), y)

-- For a name of characters other than 0, and a directory whose blocks all have direct pointers, are
-- in use and in the cache: `dir_lookup` comes to an end. It gives the first of the directory's
-- entries with that name, in the order of the blocks, and sets the f_dir of this entry to the
-- directory's address; it fails with E_NOT_FOUND, with nothing changed, only if no entry has the
-- name.
pub dir_lookup-LookedUp :
    (n b o count : ℕ) (name : List ℕ) (s : Fs)
    → NonZero name
    → Cached n b o count s
    → Returns (dir_lookup (b, o) name s) (LookedUp count b o name s)
unfolding dir_lookup
dir_lookup-LookedUp n b o count name s u c =
    subst (λ k. Returns (lookup_blocks k 0 (b, o) name s) (LookedUp count b o name s)) (sym c.size)
      (Returns-weaken _ _ (lookup_blocks count 0 (b, o) name s)
        (lookup_blocks-LookedFrom n b o name s u c.super count 0 λ j l g. c.held j (omega arith))
        λ r t h. looked count b o name s r t h)
