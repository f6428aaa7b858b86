-- ===== src/Address/Netmask.antt =====
-- `isNetmask` accepts the masks of a prefix length, and no others.
use xluci.Prelude.{
  ◌∙◌, ℕ, zero, suc, ◌+◌, ◌-◌, ◌*◌, ◌^◌, ◌≤◌, ◌<◌, true, List, [], ◌∷◌, ◌≡◌, refl, arith, leb, ◌==◌,
  if◌then◌else◌, length, Bool-cases, inl, inr, ◌↔◌,
}
use xluci.Address.{all_zero, is_boundary, is_netmask}

-- The byte with its `k` highest bits set.
unfoldable pub mask_byte : ℕ → ℕ
mask_byte k = if leb 8 k then 255 else 256 - 2 ^ (8 - k)

-- `n` bytes of which the first `k` bits are set, all if there are no more.
unfoldable pub mask : ℕ → ℕ → List ℕ
unfolding mask_byte
mask zero k = []
mask (suc n) k = mask_byte k ∷ mask n (k - 8)

all_zero-mask : (addr : List ℕ) → all_zero addr ≡ true → addr ≡ mask (length addr) 0
unfolding all_zero mask
all_zero-mask [] h = refl
all_zero-mask (a ∷ addr) h = ground (arith, all_zero-mask addr)

mask-all_zero : (n : ℕ) → all_zero (mask n 0) ≡ true
unfolding all_zero mask
mask-all_zero zero = refl
mask-all_zero (suc n) = mask-all_zero n

-- The number of bits that a boundary byte has set.
leading : ℕ → ℕ
leading a =
    if a == 254
    then 7
    else if a == 252
    then 6
    else if a == 248
    then 5
    else if a == 240
    then 4
    else if a == 224
    then 3
    else if a == 192
    then 2
    else if a == 128
    then 1
    else 0

boundary_bits : (a : ℕ) → is_boundary a ≡ true → (leading a < 8) × (a ≡ mask_byte (leading a))
unfolding is_boundary mask_byte leading
boundary_bits a h = ground (arith, h)

-- A boundary byte is followed by zeros.
mask-boundary : (a n : ℕ) → is_boundary a ≡ true → mask (suc n) (leading a) ≡ a ∷ mask n 0
unfolding mask
mask-boundary a n h =
    let (lt, e) = boundary_bits a h in
    let rest : leading a - 8 ≡ 0 = omega arith in ground (arith, e, rest)

mask-full : (n k : ℕ) → mask (suc n) (8 + k) ≡ 255 ∷ mask n k
unfolding mask mask_byte
mask-full n k = let e : 8 + k - 8 ≡ k = omega arith in ground (arith, e)

is_netmask-full : (addr : List ℕ) → is_netmask (255 ∷ addr) ≡ is_netmask addr
unfolding is_netmask
is_netmask-full addr = refl

is_netmask-mask_full :
    (n k : ℕ)
    → is_netmask (mask n k) ≡ true
    → is_netmask (mask (suc n) (suc (suc (suc (suc (suc (suc (suc (suc k))))))))) ≡ true
is_netmask-mask_full n k h =
    let e : suc (suc (suc (suc (suc (suc (suc (suc k))))))) ≡ 8 + k = omega arith in
    rw e (rw (mask-full n k) (is_netmask-full (mask n k) ∙ h))

is_netmask-mask : (n k : ℕ) → is_netmask (mask n k) ≡ true
unfolding is_netmask mask mask_byte
is_netmask-mask zero k = refl
is_netmask-mask (suc n) zero = mask-all_zero n
is_netmask-mask (suc n) (suc zero) = mask-all_zero n
is_netmask-mask (suc n) (suc (suc zero)) = mask-all_zero n
is_netmask-mask (suc n) (suc (suc (suc zero))) = mask-all_zero n
is_netmask-mask (suc n) (suc (suc (suc (suc zero)))) = mask-all_zero n
is_netmask-mask (suc n) (suc (suc (suc (suc (suc zero))))) = mask-all_zero n
is_netmask-mask (suc n) (suc (suc (suc (suc (suc (suc zero)))))) = mask-all_zero n
is_netmask-mask (suc n) (suc (suc (suc (suc (suc (suc (suc zero))))))) = mask-all_zero n
is_netmask-mask (suc n) (suc (suc (suc (suc (suc (suc (suc (suc k)))))))) =
    is_netmask-mask_full n k (is_netmask-mask n k)

mask-nil : (k : ℕ) → [] ≡ mask zero k
unfolding mask
mask-nil k = refl

-- The prefix length of an accepted mask.
prefix_of : List ℕ → ℕ
prefix_of [] = 0
prefix_of (a ∷ addr) = if a == 255 then 8 + prefix_of addr else leading a

prefix_of-mask :
    (addr : List ℕ)
    → is_netmask addr ≡ true
    → (prefix_of addr ≤ 8 * length addr) × (addr ≡ mask (length addr) (prefix_of addr))
unfolding is_netmask prefix_of
prefix_of-mask [] h = (omega arith, mask-nil 0)
prefix_of-mask (a ∷ addr) h = elim (Bool-cases (a == 255)) [
  | inl e ↦
      let (le, m) = prefix_of-mask addr (ground (arith, h, e)) in
      rw e (omega arith, ground (arith, e, mask-full (length addr) (prefix_of addr), m))
  | inr ne ↦
      let (le, m) = boundary_bits a (ground (arith, h, ne)) in
      rw ne (
        omega arith,
        ground (
          arith,
          ne,
          h,
          mask-boundary a (length addr) (ground (arith, h, ne)),
          all_zero-mask addr (ground (arith, h, ne)),
        ),
      )
]

-- `isNetmask` accepts exactly the addresses whose first bits, up to some number k, are set and whose
-- other bits are not.
pub is_netmask_iff :
    (addr : List ℕ)
    → (is_netmask addr ≡ true) ↔ ((k : ℕ) × (k ≤ 8 * length addr) × (addr ≡ mask (length addr) k))
is_netmask_iff addr = (
  λ h. (prefix_of addr, (prefix_of-mask addr h).0, (prefix_of-mask addr h).1),
  λ t. rw t.2 (is_netmask-mask (length addr) t.0),
)
