-- ===== src/Plane/Addresses/Consistent.antt =====
-- The two maps of `UsedAddresses` agree: an address is in use on a node exactly when a jail holds
-- it there, and one jail only.
use kubsd.Base.{
  ℕ, ◌≡◌, refl, ap, sym, ◌∙◌, true, false, List, [], ◌∷◌, Option, none, some, set_insert,
  set_remove, contains-set_insert, contains-set_remove, arith, ◌==◌, if◌then◌else◌, ◌⊎◌, inl, inr,
  Bool-cases,
}
use kubsd.Base.Dict
use kubsd.Base.Dict.{Dict, get-insert, get-remove}
use kubsd.Base.Str.{Str, str_eq, str_eq_iff, str_eq_refl}
use kubsd.Plane.Addresses.{
  UsedAddresses, empty, is_used, release, record_address, set_contains, drop_address, add_address,
  release_entry,
}

get_of_eq {ℓ} :
    {V : Type ℓ} (n m : Str) (d : Dict V) → str_eq n m ≡ true → Dict.get m d ≡ Dict.get n d
get_of_eq n m d h = ap (λ (k : Str). Dict.get k d) (sym ((str_eq_iff n m).0 h))

-- the use of an address after an address is dropped or added
drop_address-lem :
    (n m : Str) (a b : ℕ) (o : Option (List ℕ)) (d : Dict (List ℕ))
    → Dict.get n d ≡ o
    → set_contains (Dict.get m (drop_address n a o d)) b ≡ (
        if str_eq n m
        then (if a == b then false else set_contains (Dict.get m d) b)
        else set_contains (Dict.get m d) b)
drop_address-lem n m a b none d e = elim (Bool-cases (str_eq n m)) [
  | inl h ↦ rw (h, get_of_eq n m d h, e) (ground arith)
  | inr h ↦ rw h
]
drop_address-lem n m a b (some set) d e = elim (Bool-cases (str_eq n m)) [
  | inl h ↦
      rw (get-insert n m (set_remove a set) d, h, get_of_eq n m d h, e)
        (contains-set_remove a b set)
  | inr h ↦ rw (get-insert n m (set_remove a set) d, h)
]

add_address-lem :
    (n m : Str) (a b : ℕ) (o : Option (List ℕ)) (d : Dict (List ℕ))
    → Dict.get n d ≡ o
    → set_contains (Dict.get m (add_address n a o d)) b ≡ (
        if str_eq n m
        then (if a == b then true else set_contains (Dict.get m d) b)
        else set_contains (Dict.get m d) b)
add_address-lem n m a b none d e = elim (Bool-cases (str_eq n m)) [
  | inl h ↦ rw (get-insert n m (a ∷ []) d, h, get_of_eq n m d h, e) (ground arith)
  | inr h ↦ rw (get-insert n m (a ∷ []) d, h)
]
add_address-lem n m a b (some set) d e = elim (Bool-cases (str_eq n m)) [
  | inl h ↦
      rw (get-insert n m (set_insert a set) d, h, get_of_eq n m d h, e)
        (contains-set_insert a b set)
  | inr h ↦ rw (get-insert n m (set_insert a set) d, h)
]

pub record IsConsistent (u : UsedAddresses) : Type 0 where
  -- what a jail holds is in use
  pub held : (j n : Str) (a : ℕ) → Dict.get j u.by_jail ≡ some (n, a) → is_used u n a ≡ true
  -- no two jails hold one address of one node
  pub sole :
      (j k n : Str) (a : ℕ)
      → Dict.get j u.by_jail ≡ some (n, a)
      → Dict.get k u.by_jail ≡ some (n, a)
      → j ≡ k
  -- what is in use is held by a jail
  pub backed :
      (n : Str) (a : ℕ) → is_used u n a ≡ true → (j : Str) × (Dict.get j u.by_jail ≡ some (n, a))

pub empty-IsConsistent : IsConsistent empty
unfolding Dict.get is_used
empty-IsConsistent = record { held = λ j n a h. cc; sole = λ j k n a h q. cc; backed = λ n a h. cc }

-- one jail's entry is taken out
module _ (u : UsedAddresses) (j n : Str) (a : ℕ) (e : Dict.get j u.by_jail ≡ some (n, a)) where
  abbrev gone : UsedAddresses
  gone = release_entry (some (n, a)) j u

  is_used-gone :
      (m : Str) (b : ℕ)
      → is_used gone m b
        ≡ (if str_eq n m then (if a == b then false else is_used u m b) else is_used u m b)
  unfolding is_used
  is_used-gone m b = drop_address-lem n m a b (Dict.get n u.used_by_node) u.used_by_node refl

  held_before :
      (k m : Str) (b : ℕ)
      → Dict.get k gone.by_jail ≡ some (m, b)
      → (str_eq j k ≡ false) × (Dict.get k u.by_jail ≡ some (m, b))
  held_before k m b h = ground (arith, get-remove j k u.by_jail)

  gone-IsConsistent : IsConsistent u → IsConsistent gone
  gone-IsConsistent c = record {
    held = λ k m b h.
        let (other, before) = held_before k m b h in
        ground (
          arith,
          is_used-gone m b,
          c.held k m b before,
          str_eq_iff n m,
          str_eq_iff j k,
          λ (q : Dict.get j u.by_jail ≡ some (m, b)). c.sole j k m b q before,
        );
    sole = λ k l m b h q. c.sole k l m b (held_before k m b h).1 (held_before l m b q).1;
    backed = λ m b h.
        let (k, q) = c.backed m b (ground (arith, is_used-gone m b)) in
        (
          k,
          ground (
            arith,
            is_used-gone m b,
            get-remove j k u.by_jail,
            str_eq_iff j k,
            str_eq_iff n m,
            ap (λ (t : Str). Dict.get t u.by_jail) {x = j} {y = k},
          ),
        );
  }

release_entry-IsConsistent :
    (u : UsedAddresses) (j : Str) (o : Option (Str × ℕ))
    → Dict.get j u.by_jail ≡ o
    → IsConsistent u
    → IsConsistent (release_entry o j u)
release_entry-IsConsistent u j none e c = c
release_entry-IsConsistent u j (some (n, a)) e c = gone-IsConsistent u j n a e c

-- Releasing a jail's address keeps the maps consistent, whether or not the jail has one.
pub release-IsConsistent :
    (u : UsedAddresses) (j : Str) → IsConsistent u → IsConsistent (release u j)
unfolding release
release-IsConsistent u j c = release_entry-IsConsistent u j (Dict.get j u.by_jail) refl c

release_entry-by_jail :
    (u : UsedAddresses) (j k : Str) (o : Option (Str × ℕ))
    → Dict.get j u.by_jail ≡ o
    → Dict.get k (release_entry o j u).by_jail ≡ (if str_eq j k then none else Dict.get k u.by_jail)
release_entry-by_jail u j k none e = elim (Bool-cases (str_eq j k)) [
  | inl h ↦ rw h (get_of_eq j k u.by_jail h ∙ e)
  | inr h ↦ rw h
]
release_entry-by_jail u j k (some (n, a)) e = get-remove j k u.by_jail

pub by_jail-release :
    (u : UsedAddresses) (j k : Str)
    → Dict.get k (release u j).by_jail ≡ (if str_eq j k then none else Dict.get k u.by_jail)
unfolding release
by_jail-release u j k = release_entry-by_jail u j k (Dict.get j u.by_jail) refl

pub by_jail-record_address :
    (u : UsedAddresses) (j n : Str) (a : ℕ) (k : Str)
    → Dict.get k (record_address u j n a).by_jail
      ≡ (if str_eq j k then some (n, a) else Dict.get k u.by_jail)
unfolding record_address release
by_jail-record_address u j n a k =
    rw (get-insert j k (n, a) (release u j).by_jail, by_jail-release u j k) (ground arith)

-- in terms of the state after the release
pub is_used-record_address :
    (u : UsedAddresses) (j n : Str) (a : ℕ) (m : Str) (b : ℕ)
    → is_used (record_address u j n a) m b ≡ (
        if str_eq n m
        then (if a == b then true else is_used (release u j) m b)
        else is_used (release u j) m b)
unfolding record_address is_used
is_used-record_address u j n a m b =
    let d = (release u j).used_by_node in add_address-lem n m a b (Dict.get n d) d refl

used_after_record :
    (u : UsedAddresses) (j n : Str) (a : ℕ) (m : Str) (b : ℕ)
    → is_used (record_address u j n a) m b ≡ true
    → ((n ≡ m) × (a ≡ b)) ⊎ (is_used (release u j) m b ≡ true)
used_after_record u j n a m b h = ground (arith, is_used-record_address u j n a m b, str_eq_iff n m)

-- Recording an address that no other jail holds keeps the maps consistent; the jail's former
-- address, if it had one, is released.
pub record_address-IsConsistent :
    (u : UsedAddresses) (j n : Str) (a : ℕ)
    → IsConsistent u
    → ((k : Str) → Dict.get k u.by_jail ≡ some (n, a) → k ≡ j)
    → IsConsistent (record_address u j n a)
record_address-IsConsistent u j n a c free =
    let r = release-IsConsistent u j c in
    let none_holds : (k : Str) → ¬ (Dict.get k (release u j).by_jail ≡ some (n, a)) =
      λ k h. ground (arith, by_jail-release u j k, free k, str_eq_iff j k) in
    record {
      held = λ k m b h. ground (
        arith,
        is_used-record_address u j n a m b,
        by_jail-record_address u j n a k,
        by_jail-release u j k,
        r.held k m b,
        str_eq_iff n m,
      );
      sole = λ k l m b h q. ground (
        arith,
        by_jail-record_address u j n a k,
        by_jail-record_address u j n a l,
        by_jail-release u j k,
        by_jail-release u j l,
        r.sole k l m b,
        str_eq_iff j k,
        str_eq_iff j l,
        none_holds k,
        none_holds l,
      );
      backed = λ m b h. elim (used_after_record u j n a m b h) [
        | inl (p, q) ↦ (j, rw (by_jail-record_address u j n a j, str_eq_refl j) (cc (p, q)))
        | inr old ↦
            let (k, held) = r.backed m b old in
            (k, ground (arith, by_jail-record_address u j n a k, by_jail-release u j k))
      ];
    }
