-- ===== src/Network/Queries/Members.antt =====
-- Which objects the lists of network.js have.
use text.Mathlib.Text.{◌==◌}
use mathlib.Core.Path.{subst}
use xluci.Prelude.{
  String, Bool, true, not, Option, none, some, List, [], ◌∷◌, ap, ◌∙◌, refl, ◌≡◌, ◌≢◌, ◌↔◌, ◌⊎◌,
  inl, inr, arith, eq_iff, Bool-cases, Option-cases,
}
use xluci.Prelude.Dict.{Dict, lookup, keys}
use xluci.Uci.Save.{str_leb}
use xluci.Network.Objects.{Device, Interface, Network}
use xluci.Network.Queries.{
  collect, insert_by, sort_by, get_devices, get_interfaces, get_interfaces_by_device, attached,
  is_device,
}

module _ {A : Type 0} where
  -- Membership that can be matched on.
  abbrev pub In : A → List A → Type 0
  In a [] = ⊥
  In a (b ∷ l) = (b ≡ a) ⊎ In a l

module _ {A : Type 0} where
  In-insert_by :
      (key : A → String) (a x : A) (l : List A) → In x (insert_by key a l) ↔ ((a ≡ x) ⊎ In x l)
  unfolding insert_by
  In-insert_by key a x [] = (λ h. h, λ h. h)
  In-insert_by key a x (b ∷ l) =
      let (to, from) = In-insert_by key a x l in
      elim (Bool-cases (str_leb (key a) (key b))) [
        | inl e ↦ rw e (λ h. h, λ h. h)
        | inr e ↦ rw e (
          λ h. elim h [
            | inl eq ↦ inr (inl eq)
            | inr r ↦ elim (to r) [ inl eq ↦ inl eq | inr s ↦ inr (inr s) ]
          ],
          λ h. elim h [
            | inl eq ↦ inr (from (inl eq))
            | inr r ↦ elim r [ inl eq ↦ inl eq | inr s ↦ inr (from (inr s)) ]
          ],
        )
      ]

  In-sort_by : (key : A → String) (x : A) (l : List A) → In x (sort_by key l) ↔ In x l
  unfolding sort_by
  In-sort_by key x [] = (λ h. h, λ h. h)
  In-sort_by key x (a ∷ l) =
      let (to, from) = In-insert_by key a x (sort_by key l) in
      let (to', from') = In-sort_by key x l in
      (
        λ h. elim (to h) [ inl e ↦ inl e | inr r ↦ inr (to' r) ],
        λ h. elim h [ inl e ↦ from (inl e) | inr r ↦ from (inr (from' r)) ],
      )

  collected :
      (d : Dict A) (test : String → A → Bool) (ks : List String) (a : A)
      → In a (collect d test ks)
      → (k : String) × (lookup k d ≡ some a) × (test k a ≡ true)
  unfolding collect
  collected d test [] a h = absurd h
  collected d test (k ∷ ks) a h =
      let rest = collect d test ks in
      elim (Option-cases (lookup k d)) [
        | inl e ↦
            let same : collect d test (k ∷ ks) ≡ rest = ground (arith, e) in
            collected d test ks a (subst (λ l. In a l) same h)
        | inr (b, e) ↦ elim (Bool-cases (test k b)) [
          | inl t ↦
              let more : collect d test (k ∷ ks) ≡ b ∷ rest = ground (arith, e, t) in
              elim (subst (λ l. In a l) more h) [
                | inl eq ↦ (k, e ∙ ap some eq, subst (λ x. test k x ≡ true) eq t)
                | inr r ↦ collected d test ks a r
              ]
          | inr f ↦
              let same : collect d test (k ∷ ks) ≡ rest = ground (arith, e, f) in
              collected d test ks a (subst (λ l. In a l) same h)
        ]
      ]

  to_collect :
      (d : Dict A) (test : String → A → Bool) (ks : List String) (a : A) (k : String)
      → In k ks
      → lookup k d ≡ some a
      → test k a ≡ true
      → In a (collect d test ks)
  unfolding collect
  to_collect d test [] a k h e t = absurd h
  to_collect d test (j ∷ ks) a k (inl j_is_k) e t =
      rw ((ap (λ x. lookup x d) j_is_k ∙ e), collect)
        (rw (ap (λ x. test x a) j_is_k ∙ t) (inl refl))
  to_collect d test (j ∷ ks) a k (inr h) e t =
      let rest = to_collect d test ks a k h e t in
      elim (Option-cases (lookup j d)) [
        | inl none_there ↦ rw (none_there, collect) rest
        | inr (b, there) ↦ elim (Bool-cases (test j b)) [
          | inl t' ↦ rw (there, collect) (rw t' (inr rest))
          | inr f ↦ rw (there, collect) (rw f rest)
        ]
      ]

  In-keys : (d : Dict A) (k : String) (a : A) → lookup k d ≡ some a → In k (keys d)
  unfolding lookup
  In-keys [] k a h = absurd (ground (arith, h))
  In-keys ((j, b) ∷ d) k a h = elim (Bool-cases (j == k)) [
    | inl e ↦ inl ((eq_iff j k).0 e)
    | inr ne ↦ inr (In-keys d k a (ground (arith, ne, h)))
  ]

  In-sorted_collect :
      (key : A → String) (d : Dict A) (test : String → A → Bool) (a : A)
      → In a (sort_by key (collect d test (keys d)))
        ↔ ((k : String) × (lookup k d ≡ some a) × (test k a ≡ true))
  In-sorted_collect key d test a =
      let (to, from) = In-sort_by key a (collect d test (keys d)) in
      (
        λ h. collected d test (keys d) a (to h),
        λ t. from (to_collect d test (keys d) a t.0 (In-keys d t.0 a t.1) t.1 t.2),
      )

other_name : (k name : String) → (not (k == name) ≡ true) ↔ (k ≢ name)
other_name k name = (
  λ t e. absurd (ground (arith, t, (eq_iff k name).1 e)),
  λ ne. ground (arith, eq_iff k name, ne),
)

is_device_iff : (dev : String) (o : Option String) → (is_device dev o ≡ true) ↔ (o ≡ some dev)
unfolding is_device
is_device_iff dev none = (λ h. absurd (ground (arith, h)), λ h. absurd (ground (arith, h)))
is_device_iff dev (some o) =
    (λ h. ap some ((eq_iff o dev).0 h), λ h. ground (arith, h, eq_iff o dev))

attached_iff :
    (dev : String) (i : Interface)
    → (attached dev i ≡ true) ↔ ((i.l2dev ≡ some dev) ⊎ (i.l3dev ≡ some dev))
unfolding attached
attached_iff dev i = (
  λ h. elim (Bool-cases (is_device dev i.l2dev)) [
    | inl e ↦ inl ((is_device_iff dev i.l2dev).0 e)
    | inr ne ↦ inr ((is_device_iff dev i.l3dev).0 (ground (arith, ne, h)))
  ],
  λ h. elim h [
    | inl e ↦ ground (arith, (is_device_iff dev i.l2dev).1 e)
    | inr e ↦ ground (arith, (is_device_iff dev i.l3dev).1 e)
  ],
)

-- `getInterfacesByDevice` returns exactly the stored interface objects that have the device as their
-- layer 2 or layer 3 device, and `getInterfaces` those that are stored under another name than
-- `loopback`.
pub get_interfaces_iff :
    (net : Network) (dev : String) (i : Interface)
    → (In i (get_interfaces_by_device net dev) ↔ (
        (k : String) × (lookup k net.interfaces ≡ some i)
        × ((i.l2dev ≡ some dev) ⊎ (i.l3dev ≡ some dev))))
      × (In i (get_interfaces net)
          ↔ ((k : String) × (lookup k net.interfaces ≡ some i) × (k ≢ "loopback")))
unfolding get_interfaces_by_device get_interfaces
get_interfaces_iff net dev i =
    let (to, from) = In-sorted_collect (λ i. i.name) net.interfaces (λ name i. attached dev i) i in
    let (to', from') =
      In-sorted_collect (λ i. i.name) net.interfaces (λ name i. not (name == "loopback")) i in
    (
      (
        λ h. let (k, e, t) = to h in (k, e, (attached_iff dev i).0 t),
        λ t. from (t.0, t.1, (attached_iff dev i).1 t.2),
      ),
      (
        λ h. let (k, e, t) = to' h in (k, e, (other_name k "loopback").0 t),
        λ t. from' (t.0, t.1, (other_name t.0 "loopback").1 t.2),
      ),
    )

-- `getDevices` returns exactly the device objects that are stored under another name than `lo`.
pub get_devices_iff :
    (net : Network) (d : Device)
    → In d (get_devices net) ↔ ((k : String) × (lookup k net.devices ≡ some d) × (k ≢ "lo"))
unfolding get_devices
get_devices_iff net d =
    let (to, from) =
      In-sorted_collect (λ d. d.kind) net.devices (λ ifname d. not (ifname == "lo")) d in
    (
      λ h. let (k, e, t) = to h in (k, e, (other_name k "lo").0 t),
      λ t. from (t.0, t.1, (other_name t.0 "lo").1 t.2),
    )
