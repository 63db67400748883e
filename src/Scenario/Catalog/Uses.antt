-- ===== src/Scenario/Catalog/Uses.antt =====
-- The two directions of the dependency graph agree, and each update shows in both.
use home_sentinel.Base.{
  ◌≡◌, refl, sym, ◌∙◌, String, str_eq, eq_iff, true, not, ◌&&◌, ◌||◌, List, [], ◌∷◌, arith,
  Bool-cases, Option-cases, inl, inr, if◌then◌else◌, Dict, lookup, insert, lookup-insert,
  lookup-erase,
}
use home_sentinel.Scenario.Catalog.Dependency.{
  Index, found, member, remove, add, put_back, withdraw_at, withdraw, clear_at, clear, enroll,
  to_set, enter, users,
}

-- The members of the set at a key.
abbrev at : String → Dict (List String) → List String
at key m = found (lookup key m)

-- A member that is compared with itself or with an equal text.
member-same :
    (x y : String) (xs : List String) → member x xs ≡ true → str_eq x y ≡ true → member y xs ≡ true
member-same x y xs h e = ground (arith, h, (eq_iff x y).0 e)

pub member-add :
    (x y : String) (xs : List String) → member y (add x xs) ≡ (str_eq x y || member y xs)
unfolding add member
member-add x y xs = elim (Bool-cases (member x xs)) [
  | inl h ↦ let k = member-same x y xs h in rw (h) (ground (arith, h, k))
  | inr h ↦ rw (h) (ground arith)
]

member-remove :
    (x y : String) (ys : List String) → member y (remove x ys) ≡ (member y ys && not (str_eq x y))
unfolding remove member
member-remove x y [] = refl
member-remove x y (z ∷ zs) =
    let ih = member-remove x y zs in ground (arith, ih, eq_iff z x, eq_iff z y, eq_iff x y)

member-to_set : (y : String) (xs : List String) → member y (to_set xs) ≡ member y xs
unfolding to_set member
member-to_set y [] = refl
member-to_set y (x ∷ xs) =
    let ih = member-to_set y xs in ground (arith, ih, member-add x y (to_set xs))

at-put_back :
    (dep d : String) (ss : List String) (m : Dict (List String))
    → at d (put_back dep ss m) ≡ (if str_eq dep d then ss else at d m)
unfolding put_back found
at-put_back dep d [] m = rw (lookup-erase dep d m) (ground arith)
at-put_back dep d (s ∷ ss) m = rw (lookup-insert dep d (s ∷ ss) m) (ground arith)

withdraw_at-member :
    (id dep d s : String) (m : Dict (List String))
    → member s (at d (withdraw_at id dep (lookup dep m) m))
      ≡ (member s (at d m) && not (str_eq dep d && str_eq id s))
unfolding withdraw_at found member
withdraw_at-member id dep d s m = elim (Option-cases (lookup dep m)) [
  | inl e ↦ ground (arith, e, eq_iff dep d)
  | inr (ss, e) ↦
      let p = at-put_back dep d (remove id ss) m in
      let q = member-remove id s ss in ground (arith, e, p, q, eq_iff dep d)
]

enroll_at-member :
    (id dep d s : String) (m : Dict (List String))
    → member s (at d (insert dep (add id (at dep m)) m))
      ≡ (member s (at d m) || (str_eq dep d && str_eq id s))
unfolding found member
enroll_at-member id dep d s m =
    let p = lookup-insert dep d (add id (at dep m)) m in
    let q = member-add id s (at dep m) in ground (arith, p, q, eq_iff dep d)

withdraw-member :
    (id : String) (deps : List String) (d s : String) (m : Dict (List String))
    → member s (at d (withdraw id deps m))
      ≡ (member s (at d m) && not (member d deps && str_eq id s))
unfolding withdraw member
withdraw-member id [] d s m = ground arith
withdraw-member id (dep ∷ deps) d s m =
    let ih = withdraw-member id deps d s (withdraw_at id dep (lookup dep m) m) in
    ground (arith, ih, withdraw_at-member id dep d s m)

enroll-member :
    (id : String) (deps : List String) (d s : String) (m : Dict (List String))
    → member s (at d (enroll id deps m)) ≡ (member s (at d m) || (member d deps && str_eq id s))
unfolding enroll member
enroll-member id [] d s m = ground arith
enroll-member id (dep ∷ deps) d s m =
    let ih = enroll-member id deps d s (insert dep (add id (at dep m)) m) in
    ground (arith, ih, enroll_at-member id dep d s m)

-- A scenario is listed under its dependencies and under nothing else.
abbrev pub IsConsistent : Index → Type 0
IsConsistent x = (d s : String) → member s (users d x) ≡ member d (found (lookup s x.forward))

pub clear-users :
    (id d s : String) (x : Index)
    → IsConsistent x
    → member s (users d (clear id x)) ≡ (member s (users d x) && not (str_eq id s))
unfolding clear clear_at users found member
clear-users id d s x ok = elim (Option-cases (lookup id x.forward)) [
  | inl e ↦ let o = ok d s in rw (clear, e) (ground (arith, e, o, eq_iff id s))
  | inr (deps, e) ↦
      let w = withdraw-member id deps d s x.reverse in
      let o = ok d s in rw (clear, e) (ground (arith, e, w, o, eq_iff id s))
]

clear-forward :
    (id d s : String) (x : Index)
    → member d (at s (clear id x).forward) ≡ (member d (at s x.forward) && not (str_eq id s))
unfolding clear clear_at found member
clear-forward id d s x = elim (Option-cases (lookup id x.forward)) [
  | inl e ↦ ground (arith, e, eq_iff id s)
  | inr (deps, e) ↦ let w = lookup-erase id s x.forward in ground (arith, e, w)
]

pub clear-IsConsistent : (id : String) (x : Index) → IsConsistent x → IsConsistent (clear id x)
clear-IsConsistent id x ok d s =
    clear-users id d s x ok ∙ (rw (ok d s) (sym (clear-forward id d s x)))

-- What an update leaves in an index.
abbrev pub renew : String → List String → Index → Index
renew id deps x = enter id deps (clear id x)

pub renew-users :
    (id : String) (deps : List String) (d s : String) (x : Index)
    → IsConsistent x
    → member s (users d (renew id deps x))
      ≡ (if str_eq id s then member d deps else member s (users d x))
unfolding enter users
renew-users id deps d s x ok =
    let cleared = clear-users id d s x ok in
    let entered = enroll-member id deps d s (clear id x).reverse in ground (arith, cleared, entered)

renew-forward :
    (id : String) (deps : List String) (d s : String) (x : Index)
    → member d (at s (renew id deps x).forward)
      ≡ (if str_eq id s then member d deps else member d (at s x.forward))
unfolding enter found member
renew-forward id deps d s x =
    let p = lookup-insert id s (to_set deps) (clear id x).forward in
    let q = member-to_set d deps in let r = clear-forward id d s x in ground (arith, p, q, r)

pub renew-IsConsistent :
    (id : String) (deps : List String) (x : Index) → IsConsistent x → IsConsistent (renew id deps x)
renew-IsConsistent id deps x ok d s =
    renew-users id deps d s x ok ∙ (rw (ok d s) (sym (renew-forward id deps d s x)))
