-- ===== src/Email/Primary/Least.antt =====
-- src/sync/email.rs: `pick_primary_mailbox` returns the first of the least candidates.
use mathlib.Core.List.{head?}
use Prim.Native.Nat.{compare, Ordering}
use jmapsyncd.Base.{
  ℕ, ◌≡◌, ◌≢◌, ◌↔◌, ◌⊎◌, inl, inr, refl, arith, ◌<◌, ◌++◌, none, some, List, [], ◌∷◌, Text, text_eq,
  All,
}
use jmapsyncd.Base.Dict.{Dict}
use jmapsyncd.Base.Int.{cmp_ℤ, cmp_ℤ-IsPreorder}
use jmapsyncd.Base.Order.{
  IsPreorder, compare-IsPreorder, cmp_text-IsPreorder, lt, eq, gt, then_cmp, cmp_text,
  then-IsPreorder, by_key-IsPreorder,
}
use jmapsyncd.Base.Sort.{IsFirstLeast, sort_by-IsFirstLeast, sort_by-nil}
use jmapsyncd.Db.Models.{MailboxRow}
use jmapsyncd.Email.Primary.{role_rank, order_of, cmp_candidates, candidates, pick_primary_mailbox}

pub cmp_candidates-IsPreorder : IsPreorder cmp_candidates
unfolding cmp_candidates
cmp_candidates-IsPreorder =
    then-IsPreorder (by_key-IsPreorder (λ (m : MailboxRow). role_rank m.role) compare-IsPreorder) (
      then-IsPreorder (by_key-IsPreorder order_of cmp_ℤ-IsPreorder)
        (by_key-IsPreorder (λ (m : MailboxRow). m.name) cmp_text-IsPreorder))

pick_primary_mailbox-IsFirstLeast :
    (ids : List Text) (d : Dict Text MailboxRow) (m : MailboxRow)
    → pick_primary_mailbox ids d ≡ some m
    → IsFirstLeast cmp_candidates m (candidates ids d)
pick_primary_mailbox-IsFirstLeast ids d m h =
    sort_by-IsFirstLeast cmp_candidates cmp_candidates-IsPreorder (candidates ids d) m
      (unfold pick_primary_mailbox in h)

-- One mailbox goes before another: its role has a smaller rank, or the same rank and it has a
-- smaller sort order, or both are the same and its name is less.
abbrev pub Precedes : MailboxRow → MailboxRow → Type 0
Precedes m c =
    (role_rank m.role < role_rank c.role)
    ⊎ ((role_rank m.role ≡ role_rank c.role)
        × ((cmp_ℤ (order_of m) (order_of c) ≡ lt)
            ⊎ ((cmp_ℤ (order_of m) (order_of c) ≡ eq) × (cmp_text m.name c.name ≡ lt))))

-- All three are the same.
abbrev pub Ties : MailboxRow → MailboxRow → Type 0
Ties m c =
    (role_rank m.role ≡ role_rank c.role)
    × (cmp_ℤ (order_of m) (order_of c) ≡ eq)
    × (cmp_text m.name c.name ≡ eq)

then_lt : (o s : Ordering) → then_cmp o s ≡ lt → (o ≡ lt) ⊎ ((o ≡ eq) × (s ≡ lt))
then_lt lt s h = inl refl
then_lt eq s h = inr (refl, h)
then_lt gt s h = cc

then_eq : (o s : Ordering) → then_cmp o s ≡ eq → (o ≡ eq) × (s ≡ eq)
then_eq lt s h = cc
then_eq eq s h = (refl, h)
then_eq gt s h = cc

compare-lt : (a b : ℕ) → compare a b ≡ lt → a < b
compare-lt a b h = ground arith

compare-eq : (a b : ℕ) → compare a b ≡ eq → a ≡ b
compare-eq a b h = ground arith

lt-Precedes : (m c : MailboxRow) → cmp_candidates m c ≡ lt → Precedes m c
unfolding cmp_candidates
lt-Precedes m c h = elim (then_lt (compare (role_rank m.role) (role_rank c.role)) _ h) [
  | inl r ↦ inl (compare-lt _ _ r)
  | inr (r, k) ↦ inr (compare-eq _ _ r, then_lt (cmp_ℤ (order_of m) (order_of c)) _ k)
]

eq-Ties : (m c : MailboxRow) → cmp_candidates m c ≡ eq → Ties m c
unfolding cmp_candidates
eq-Ties m c h =
    let (r, k) = then_eq (compare (role_rank m.role) (role_rank c.role)) _ h in
    let (o, n) = then_eq (cmp_ℤ (order_of m) (order_of c)) _ k in (compare-eq _ _ r, o, n)

le-Precedes :
    (o : Ordering) (m c : MailboxRow) → cmp_candidates m c ≡ o → o ≢ gt → Precedes m c ⊎ Ties m c
le-Precedes lt m c h n = inl (lt-Precedes m c h)
le-Precedes eq m c h n = inr (eq-Ties m c h)
le-Precedes gt m c h n = absurd (n refl)

All-map :
    {P Q : MailboxRow → Type 0} (l : List MailboxRow)
    → ((c : MailboxRow) → P c → Q c)
    → All P l
    → All Q l
All-map [] f h = tt
All-map (c ∷ l) f h = (f c h.0, All-map l f h.1)

-- The mailbox that is picked is one of the message's in scope. It goes before each of these that
-- stands before it in the message's list, and goes before or ties with each that stands after it:
-- by the rank of the role, then the sort order, then the name.
pub pick_primary_mailbox-Precedes :
    (ids : List Text) (d : Dict Text MailboxRow) (m : MailboxRow)
    → pick_primary_mailbox ids d ≡ some m
    → (before : List MailboxRow) × (after : List MailboxRow) × (candidates ids d
        ≡ before ++ (m ∷ after))
      × All (λ c. Precedes m c) before
      × All (λ c. Precedes m c ⊎ Ties m c) after
pick_primary_mailbox-Precedes ids d m h =
    let f = pick_primary_mailbox-IsFirstLeast ids d m h in
    (
      f.before,
      f.after,
      f.splits,
      All-map f.before (lt-Precedes m) f.less_before,
      All-map f.after (λ c n. le-Precedes (cmp_candidates m c) m c refl n) f.le_after,
    )

head-none : (l : List MailboxRow) → head? l ≡ none → l ≡ []
head-none [] h = refl
head-none (m ∷ l) h = cc

-- Nothing is picked exactly when no mailbox of the message is in scope.
pub pick_primary_mailbox-none :
    (ids : List Text) (d : Dict Text MailboxRow)
    → (pick_primary_mailbox ids d ≡ none) ↔ (candidates ids d ≡ [])
unfolding pick_primary_mailbox
pick_primary_mailbox-none ids d = (
  λ h. sort_by-nil cmp_candidates cmp_candidates-IsPreorder (candidates ids d) (head-none _ h),
  λ h. rw h,
)
