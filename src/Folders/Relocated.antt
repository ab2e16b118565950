-- ===== src/Folders/Relocated.antt =====
-- The two statements that relocate a folder with all that lies below it, `rename` and `move` of
-- app/repositories/folders_repository.py, keep the tree.
use mathlib.Core.Bool.{and-eq-true_iff}
use mathlib.Core.Path.{subst}
use mimir_backend.Prelude.{
  true, false, not, ◌&&◌, List, [], ◌∷◌, ◌++◌, append-nil, map, ◌≡◌, ◌≢◌, refl, sym, ap, ◌∙◌, inl,
  inr, arith, Bool-cases, length, drop, str_eq, eq_iff, eq_refl, Text,
}
use mimir_backend.Folders.FolderPath.{no_slash, starts_with}
use mimir_backend.Folders.Store.{Folder, unique, is_below, shifted, set_row, shift_row}
use mimir_backend.Folders.Prefix.{
  slash_end, like_under-starts_with, starts_with_self, length-starts_with, drop_self, path_cut,
}
use mimir_backend.Prelude.Rows.{Row, Row-map, Row-map_inv}
use mimir_backend.Folders.Tree.{
  Placed, root, child, IsTree, one-Row, clash_id, clash_path, Placed-path, length-path,
}
use mimir_backend.Folders.Carried.{
  NewPlace, top, into, Relocation, under, set_row-same, set_row-different, shift_row-other,
  shift_row-below, Carried, under_append, shifted-Placed,
}

module _ (fs : List Folder) (current : Folder) (change : Folder → Folder)
    (r : Relocation fs current change) where
  -- Both statements, on one row.
  abbrev pub relocated : Folder → Folder
  relocated f =
      shift_row current (change current).path (change current).depth (set_row current.id change f)

  under_self : under current current ≡ true
  under_self = rw (eq_refl current.owner_id) (
      ap (starts_with current.path) (sym (append-nil current.path))
      ∙ starts_with_self current.path [])

  is_below-under :
      (f : Folder) → is_below current f ≡ under current f && not (str_eq f.id current.id)
  unfolding is_below
  is_below-under f = rw (like_under-starts_with current.path f.path r.plain) (ground arith)

  the_current : (f : Folder) → Row f fs → str_eq f.id current.id ≡ true → f ≡ current
  the_current f at e =
      one-Row fs f current r.tree.distinct at r.at
        (clash_id f current ((eq_iff f.id current.id).0 e))

  not_below_same : (f : Folder) → f.id ≡ current.id → is_below current f ≡ false
  unfolding is_below
  not_below_same f e = rw (e, eq_refl current.id) (ground arith)

  -- What is not under the folder is another row.
  other_id : (f : Folder) → Row f fs → under current f ≡ false → str_eq f.id current.id ≡ false
  other_id f at u = elim (Bool-cases (str_eq f.id current.id)) [
    | inl e ↦ absurd (cc (sym u ∙ (ap (under current) (the_current f at e) ∙ under_self)))
    | inr e ↦ e
  ]

  relocated-current : relocated current ≡ change current
  relocated-current =
      ap (shift_row current (change current).path (change current).depth)
        (set_row-same current.id change current (eq_refl current.id))
      ∙ shift_row-other current (change current) (change current).path (change current).depth
          (not_below_same (change current) r.same_id)

  relocated-other : (f : Folder) → Row f fs → under current f ≡ false → relocated f ≡ f
  relocated-other f at u =
      ap (shift_row current (change current).path (change current).depth)
        (set_row-different current.id change f (other_id f at u))
      ∙ shift_row-other current f (change current).path (change current).depth
          (rw (is_below-under f, u) refl)

  relocated-below :
      (f : Folder)
      → str_eq f.id current.id ≡ false
      → under current f ≡ true
      → relocated f
        ≡ shifted current.path (change current).path current.depth (change current).depth f
  relocated-below f e u =
      ap (shift_row current (change current).path (change current).depth)
        (set_row-different current.id change f e)
      ∙ shift_row-below current (change current) f (rw (is_below-under f, u, e) refl)

  under-Carried :
      (q : Folder)
      → Row q fs
      → under current q ≡ true
      → Carried current (change current) q (relocated q)
  under-Carried q at u = elim (Bool-cases (str_eq q.id current.id)) [
    | inl e ↦
        subst (λ (k : Folder). Carried current (change current) k (relocated k))
          (sym (the_current q at e)) current-Carried
    | inr e ↦
        let below : is_below current q ≡ true = rw (is_below-under q, u, e) refl in
        let enough = r.room q at below in
        rw (relocated-below q e u) (record {
          id_kept = refl;
          owner_kept = refl;
          path_shifted = refl;
          depth_shifted = omega arith;
        })
  ]
    where
      current-Carried : Carried current (change current) current (relocated current)
      current-Carried = rw relocated-current (record {
        id_kept = r.same_id;
        owner_kept = r.same_owner;
        path_shifted = sym (
            ap (λ (t : Text). (change current).path ++ t)
              (ap (drop (length current.path)) (sym (append-nil current.path))
                ∙ drop_self current.path [])
            ∙ append-nil (change current).path);
        depth_shifted = omega arith;
      })

  -- No other row has the folder's own path.
  other_path :
      (f : Folder)
      → Row f fs
      → str_eq f.id current.id ≡ false
      → f.owner_id ≡ current.owner_id
      → current.path ≢ f.path
  other_path f at e o p =
      let same = one-Row fs f current r.tree.distinct at r.at (clash_path f current o (sym p)) in
      cc (sym (ap (λ (k : Folder). str_eq k.id current.id) same ∙ eq_refl current.id) ∙ e)

  -- A row under the folder has the folder's path in what stands before its own name.
  under_inv :
      (f : Folder) (q : Text)
      → Row f fs
      → str_eq f.id current.id ≡ false
      → f.path ≡ q ++ (f.name ++ slash_end)
      → under current f ≡ true
      → (f.owner_id ≡ current.owner_id) × (starts_with current.path q ≡ true)
  under_inv f q at e p u =
      let (o, prefix) =
        (and-eq-true_iff (str_eq f.owner_id current.owner_id) (starts_with current.path f.path)).0
          u in
      let owner = (eq_iff f.owner_id current.owner_id).0 o in
      let (s, end) = Placed-path fs current (r.tree.placed current r.at) in
      elim (path_cut s q f.name (r.tree.named f at) (rw (← end, ← p) prefix)) [
        | inl before ↦ (owner, rw end before)
        | inr all ↦ absurd (other_path f at e owner (end ∙ (all ∙ sym p)))
      ]

  child_under :
      (f q : Folder)
      → Row f fs
      → str_eq f.id current.id ≡ false
      → f.owner_id ≡ q.owner_id
      → f.path ≡ q.path ++ (f.name ++ slash_end)
      → under current f ≡ true
      → under current q ≡ true
  child_under f q at e o p u =
      let (owner, before) = under_inv f q.path at e p u in
      rw (before, sym o ∙ owner, eq_refl current.owner_id) refl

  under-child :
      (f q : Folder)
      → Row f fs
      → Row q fs
      → str_eq f.id current.id ≡ false
      → f.owner_id ≡ q.owner_id
      → f.path ≡ q.path ++ (f.name ++ slash_end)
      → under current f ≡ under current q
  under-child f q at at_q e o p = elim (Bool-cases (under current q)) [
    | inl u ↦ rw (o, p) (under_append current q (f.name ++ slash_end) u ∙ sym u)
    | inr u ↦ elim (Bool-cases (under current f)) [
      | inr v ↦ v ∙ sym u
      | inl v ↦ absurd (cc (sym u ∙ child_under f q at e o p v))
    ]
  ]

  under-root :
      (f : Folder)
      → Row f fs
      → str_eq f.id current.id ≡ false
      → f.path ≡ b'/' ∷ (f.name ++ slash_end)
      → under current f ≡ false
  under-root f at e p = elim (Bool-cases (under current f)) [
    | inr u ↦ u
    | inl u ↦
        let before = (under_inv f slash_end at e p u).1 in
        let long = length-path fs r.tree current (r.tree.placed current r.at) in
        absurd (omega (arith, length-starts_with current.path slash_end before))
  ]

  -- A row other than the folder's stands where its parent's row puts it.
  other-Placed :
      (f : Folder)
      → Row f fs
      → str_eq f.id current.id ≡ false
      → Placed fs f
      → Placed (map relocated fs) (relocated f)
  other-Placed f at e (root no_parent p d) =
      rw (relocated-other f at (under-root f at e p)) (root no_parent p d)
  other-Placed f at e (child q at_q parent o p d) = elim (Bool-cases (under current q)) [
    | inr u ↦
        rw (relocated-other f at (under-child f q at at_q e o p ∙ u))
          (child q (rw (← relocated-other q at_q u) (Row-map relocated at_q)) parent o p d)
    | inl u ↦ rw (relocated-below f e (under-child f q at at_q e o p ∙ u)) (
        shifted-Placed (map relocated fs) current (change current) f q (relocated q)
          (Row-map relocated at_q) (under-Carried q at_q u) u parent o p d)
  ]

  current-Placed : NewPlace fs current (change current) → Placed (map relocated fs) (change current)
  current-Placed (top no_parent p d) = root no_parent p d
  current-Placed (into q at_q apart parent o p d) =
      child q (rw (← relocated-other q at_q (rw apart (ground arith))) (Row-map relocated at_q))
        parent o p d

  relocated-Placed : (f : Folder) → Row f fs → Placed (map relocated fs) (relocated f)
  relocated-Placed f at = elim (Bool-cases (str_eq f.id current.id)) [
    | inl e ↦ rw (the_current f at e, relocated-current) (current-Placed r.place)
    | inr e ↦ other-Placed f at e (r.tree.placed f at)
  ]

  relocated-named : (f : Folder) → Row f fs → no_slash (relocated f).name ≡ true
  relocated-named f at = elim (Bool-cases (str_eq f.id current.id)) [
    | inl e ↦ rw (the_current f at e, relocated-current) r.named
    | inr e ↦ elim (Bool-cases (under current f)) [
      | inl u ↦ rw (relocated-below f e u) (r.tree.named f at)
      | inr u ↦ rw (relocated-other f at u) (r.tree.named f at)
    ]
  ]

  -- Where the constraints hold after the two statements, the tree is kept.
  pub relocated-IsTree : unique (map relocated fs) ≡ true → IsTree (map relocated fs)
  relocated-IsTree u = record {
    placed =
        λ f' at'. let (f, at, e) = Row-map_inv relocated fs at' in rw e (relocated-Placed f at);
    named = λ f' at'. let (f, at, e) = Row-map_inv relocated fs at' in rw e (relocated-named f at);
    distinct = u;
  }
