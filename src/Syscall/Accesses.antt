-- ===== src/Syscall/Accesses.antt =====
-- What sys_write_dev and sys_read_dev of kern/syscall_all.c let a user reach.
use os_challenge_sudo_shell.Base.{
  ℕ, zero, suc, ◌+◌, ◌*◌, ◌/◌, ◌%◌, ◌^◌, ◌≤◌, ◌<◌, ◌≡◌, ◌⊎◌, inl, inr, refl, ◌∙◌, true, false, [],
  ◌∷◌, ◌++◌, update, update_self, update_ne, Returns, Result, ok, err, e_inval, arith, Bool-cases,
}
use native.Mathlib.Nat.{pow-suc}
use os_challenge_sudo_shell.Memory.{utop, utemp}
use os_challenge_sudo_shell.Syscall.{is_illegal_va_range}
use os_challenge_sudo_shell.Syscall.Devices.{
  malta_serial_base, malta_ide_base, Machine, load, store, is_dev_range, is_width, is_aligned,
  sys_write_dev, sys_read_dev,
}

-- The bytes are in the user's memory, and the access is one of 1, 2 or 4 bytes within a device.
abbrev pub Allowed : ℕ → ℕ → ℕ → Type 0
Allowed va pa len =
    ((utemp ≤ va) × (va + len ≤ utop))
    × (((malta_ide_base ≤ pa) × (pa + len ≤ malta_ide_base + 8))
        ⊎ ((malta_serial_base ≤ pa) × (pa + len ≤ malta_serial_base + 32)))
    × ((len ≡ 1) ⊎ ((len ≡ 2) ⊎ (len ≡ 4)))

abbrev pub Written : ℕ → ℕ → ℕ → Machine → Result ℕ → Machine → Type 0
Written va pa len m (ok r) t =
    Allowed va pa len
    × (t.memory ≡ m.memory)
    × (t.written
        ≡ m.written ++ (record { pa = pa; width = len; value = load len va m.memory } ∷ []))
Written va pa len m (err e) t = (e ≡ e_inval) × (t ≡ m)

abbrev pub Read : ℕ → ℕ → ℕ → ℕ → Machine → Result ℕ → Machine → Type 0
Read v va pa len m (ok r) t =
    Allowed va pa len
    × (t.written ≡ m.written)
    × (load len va t.memory ≡ v)
    × ((x : ℕ) → (x < va) ⊎ (va + len ≤ x) → t.memory x ≡ m.memory x)
Read v va pa len m (err e) t = (e ≡ e_inval) × (t ≡ m)

store_ne : (len va v : ℕ) (m : ℕ → ℕ) (x : ℕ) → (x < va) ⊎ (va + len ≤ x) → store len va v m x ≡ m x
store_ne zero va v m x h = refl
store_ne (suc len) va v m x h =
    store_ne len (va + 1) (v / 256) (update m va (v % 256)) x
      (elim h [ inl l ↦ inl (omega arith) | inr g ↦ inr (omega arith) ])
    ∙ update_ne m va x (v % 256) (λ e. elim h [ inl l ↦ omega arith | inr g ↦ omega arith ])

load-store : (len va v : ℕ) (m : ℕ → ℕ) → v < 256 ^ len → load len va (store len va v m) ≡ v
load-store zero va v m h = omega (arith, h)
load-store (suc len) va v m h =
    let q : 256 ^ suc len ≡ 256 ^ len * 256 = pow-suc 256 len in
    let r : v / 256 < 256 ^ len = omega arith in
    let a : store len (va + 1) (v / 256) (update m va (v % 256)) va ≡ v % 256 =
      store_ne len (va + 1) (v / 256) (update m va (v % 256)) va (inl (omega arith))
      ∙ update_self m va (v % 256) in
    let b = load-store len (va + 1) (v / 256) (update m va (v % 256)) r in rw (a, b) (omega arith)

in_memory :
    (va len : ℕ)
    → va < 2 ^ 32
    → len ≤ 4
    → 0 < len
    → is_illegal_va_range va len ≡ false
    → (utemp ≤ va) × (va + len ≤ utop)
in_memory va len h l z e = ground arith

in_device :
    (pa len : ℕ)
    → pa + len < 2 ^ 32
    → is_dev_range pa len ≡ true
    → ((malta_ide_base ≤ pa) × (pa + len ≤ malta_ide_base + 8))
      ⊎ ((malta_serial_base ≤ pa) × (pa + len ≤ malta_serial_base + 32))
in_device pa len h e = ground arith

a_width : (len : ℕ) → is_width len ≡ true → (len ≡ 1) ⊎ ((len ≡ 2) ⊎ (len ≡ 4))
a_width len e = ground arith

allowed :
    (va pa len : ℕ)
    → va < 2 ^ 32
    → pa + len < 2 ^ 32
    → is_illegal_va_range va len ≡ false
    → is_dev_range pa len ≡ true
    → is_width len ≡ true
    → Allowed va pa len
allowed va pa len hv hp i d w =
    let k = a_width len w in
    let small : len ≤ 4 = elim k [
      | inl e ↦ omega arith
      | inr (inl e) ↦ omega arith
      | inr (inr e) ↦ omega arith
    ] in
    let large : 0 < len = elim k [
      | inl e ↦ omega arith
      | inr (inl e) ↦ omega arith
      | inr (inr e) ↦ omega arith
    ] in
    (in_memory va len hv small large i, in_device pa len hp d, k)

module _ (va pa len : ℕ) (m : Machine) (hv : va < 2 ^ 32) (hp : pa + len < 2 ^ 32)
    (al : is_width len ≡ true → is_aligned va pa len ≡ true) where
  -- For addresses whose ends do not wrap for the device, and that are multiples of the width:
  -- `sys_write_dev` comes to an end. If it succeeds, the bytes lie in the user's memory, the width is
  -- 1, 2 or 4, the access lies in the IDE disk's or the console's range, and exactly that one write
  -- is made, with the value of the bytes; else the error is E_INVAL and nothing is written. No memory
  -- changes.
  pub sys_write_dev-Written : Returns (sys_write_dev va pa len m) (Written va pa len m)
  unfolding sys_write_dev
  sys_write_dev-Written = elim (Bool-cases (is_illegal_va_range va len)) [
    | inl i ↦ rw i (refl, refl)
    | inr i ↦ elim (Bool-cases (is_dev_range pa len)) [
      | inr d ↦ rw (i, d) (refl, refl)
      | inl d ↦ elim (Bool-cases (is_width len)) [
        | inr w ↦ rw (i, d, w) (refl, refl)
        | inl w ↦ let a = al w in rw (i, d, w, a) (allowed va pa len hv hp i d w, refl, refl)
      ]
    ]
  ]

  -- For addresses whose ends do not wrap for the device, and that are multiples of the width, and a
  -- device that gives values of the width: `sys_read_dev` comes to an end. If it succeeds, the bytes
  -- lie in the user's memory and the access within a device, the bytes at `va` then read as the
  -- device's value, and all other bytes are as before; else the error is E_INVAL and nothing has
  -- changed. Nothing is written to a device.
  pub sys_read_dev-Read :
      (device : ℕ → ℕ → ℕ)
      → device pa len < 256 ^ len
      → Returns (sys_read_dev device va pa len m) (Read (device pa len) va pa len m)
  unfolding sys_read_dev
  sys_read_dev-Read device hd = elim (Bool-cases (is_illegal_va_range va len)) [
    | inl i ↦ rw i (refl, refl)
    | inr i ↦ elim (Bool-cases (is_dev_range pa len)) [
      | inr d ↦ rw (i, d) (refl, refl)
      | inl d ↦ elim (Bool-cases (is_width len)) [
        | inr w ↦ rw (i, d, w) (refl, refl)
        | inl w ↦
            let a = al w in
            rw (i, d, w, a)
              (
                allowed va pa len hv hp i d w,
                refl,
                load-store len va (device pa len) m.memory hd,
                store_ne len va (device pa len) m.memory,
              )
      ]
    ]
  ]
