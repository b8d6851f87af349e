-- ===== src/Email/Keywords/Patch.antt =====
-- src/sync/email.rs: what the patches of `keyword_patch_ops` do to the keywords on the server.
use jmapsyncd.Base.{
  ◌↔◌, ℕ, ◌≡◌, refl, ◌∙◌, sym, ap, arith, Bool, true, false, Option, none, some, List, [], ◌∷◌,
  Text, ◌==◌, text_eq, nat_eq, bool_eq, contains, if◌then◌else◌,
}
use jmapsyncd.Base.BTreeMap.{
  get, insert, remove, IsSorted, get-insert_self, get-insert_ne, get-remove_self, get-remove_ne,
  insert-IsSorted, remove-IsSorted, get_ext,
}
use jmapsyncd.Base.Dict
use jmapsyncd.Base.Order.{text_ord}
use jmapsyncd.Email.Keywords.{
  KeywordMap, keyword_map, flag_of, standard_flags, patch_ops, keyword_patch_ops, merge_keywords,
}
use jmapsyncd.Email.Keywords.Flags.{contains-standard_flags}
use jmapsyncd.Email.Keywords.Merge.{
  AreDistinct, keyword_map-AreDistinct, merged, get-merge_keywords, merge_keywords-IsSorted,
  contains-standard_flags-merge, StandardSet,
}

-- The effect of the patches of one `Email/set` update: `keyword(kw, true)` sets a keyword, and
-- `unset_keyword(kw)`, a null, removes it (RFC 8620, 5.3).
abbrev pub apply_patch : List (Text × Bool) → KeywordMap → KeywordMap
apply_patch [] m = m
apply_patch ((kw, true) ∷ ops) m = apply_patch ops (insert kw true m)
apply_patch ((kw, false) ∷ ops) m = apply_patch ops (remove kw m)

apply_patch-IsSorted :
    (ops : List (Text × Bool)) (m : KeywordMap) → IsSorted m → IsSorted (apply_patch ops m)
apply_patch-IsSorted [] m s = s
apply_patch-IsSorted ((kw, true) ∷ ops) m s =
    apply_patch-IsSorted ops (insert kw true m) (insert-IsSorted kw true m s)
apply_patch-IsSorted ((kw, false) ∷ ops) m s =
    apply_patch-IsSorted ops (remove kw m) (remove-IsSorted kw m s)

-- The value of a keyword after the patches, from its flag.
abbrev patched : Option ℕ → Text → Text → Option Bool → Option Bool
patched none s d old = old
patched (some c) s d old =
    if contains s c == contains d c then old else if contains d c then some true else none

get-apply_patch :
    (kws : List (Text × ℕ)) (s d : Text) (k : Text) (m : KeywordMap)
    → AreDistinct kws
    → IsSorted m
    → get k (apply_patch (patch_ops kws s d) m) ≡ patched (Dict.get k kws) s d (get k m)
unfolding patch_ops Dict.get
get-apply_patch [] s d k m h o = refl
get-apply_patch ((kw, c) ∷ rest) s d k m h o = ground (
  arith,
  get-apply_patch rest s d k m h.1 o,
  get-apply_patch rest s d k (insert kw true m) h.1 (insert-IsSorted kw true m o),
  get-apply_patch rest s d k (remove kw m) h.1 (remove-IsSorted kw m o),
  get-insert_self kw true m,
  get-insert_ne k kw true m,
  get-remove_self kw m o,
  get-remove_ne k kw m o,
)

patched-eq-merged :
    (m : KeywordMap) (d k : Text) (o : Option ℕ)
    → flag_of k ≡ o
    → StandardSet m
    → patched o (standard_flags m) d (get k m) ≡ merged o d (get k m)
patched-eq-merged m d k none h set = refl
patched-eq-merged m d k (some c) h set = ground (arith, contains-standard_flags m k c h, set k c h)

get-keyword_patch_ops :
    (s d k : Text) (m : KeywordMap)
    → IsSorted m
    → get k (apply_patch (keyword_patch_ops s d) m) ≡ patched (flag_of k) s d (get k m)
unfolding keyword_patch_ops flag_of
get-keyword_patch_ops s d k m o = get-apply_patch keyword_map s d k m keyword_map-AreDistinct o

-- The patches take the stored keywords to the merged ones.
pub apply_patch-eq-merge :
    (m : KeywordMap) (d : Text)
    → IsSorted m
    → StandardSet m
    → apply_patch (keyword_patch_ops (standard_flags m) d) m ≡ merge_keywords m d
apply_patch-eq-merge m d s set =
    get_ext (apply_patch (keyword_patch_ops (standard_flags m) d) m) (merge_keywords m d)
      (apply_patch-IsSorted (keyword_patch_ops (standard_flags m) d) m s)
      (merge_keywords-IsSorted m d s)
      λ k.
        get-keyword_patch_ops (standard_flags m) d k m s
        ∙ patched-eq-merged m d k (flag_of k) refl set
        ∙ sym (get-merge_keywords m d k s)

patch_ops-nil :
    (kws : List (Text × ℕ)) (s d : Text)
    → AreDistinct kws
    → ((k : Text) (c : ℕ) → Dict.get k kws ≡ some c → contains s c ≡ contains d c)
    → patch_ops kws s d ≡ []
unfolding patch_ops Dict.get
patch_ops-nil [] s d h same = refl
patch_ops-nil ((kw, c) ∷ rest) s d h same =
    ground (arith, same kw c, patch_ops-nil rest s d h.1 (λ k c' e. same k c' (ground arith)))

pub keyword_patch_ops-nil :
    (s d : Text)
    → ((k : Text) (c : ℕ) → flag_of k ≡ some c → contains s c ≡ contains d c)
    → keyword_patch_ops s d ≡ []
unfolding keyword_patch_ops flag_of
keyword_patch_ops-nil s d same = patch_ops-nil keyword_map s d keyword_map-AreDistinct same

-- For a sorted stored map in which no standard keyword is `false`, no patch is sent exactly when
-- the merge with the disk flags leaves the map as it is.
pub keyword_patch_ops-nil_iff :
    (m : KeywordMap) (d : Text)
    → IsSorted m
    → StandardSet m
    → (keyword_patch_ops (standard_flags m) d ≡ []) ↔ (merge_keywords m d ≡ m)
keyword_patch_ops-nil_iff m d s set = (
  λ e.
      sym (apply_patch-eq-merge m d s set) ∙ ap (λ (ops : List (Text × Bool)). apply_patch ops m) e,
  λ e. keyword_patch_ops-nil (standard_flags m) d λ k c h.
      ap (λ (n : KeywordMap). contains (standard_flags n) c) (sym e)
      ∙ contains-standard_flags-merge m d k c s h,
)
