-- ===== src/Wt/Config/Tracking.antt =====
-- wt/config.go, `writeTempFile`: the files that are there, and those that the configuration lists.
use go_wst.Prelude.{
  ◌≡◌, ◌⊎◌, refl, sym, subst, Bool-cases, Option-cases, inl, inr, ◌∙◌, String, str_eq, eq_iff, List,
  [], ◌∷◌, ◌++◌, Option, none, some, Bool, true, false, ◌||◌, ◌&&◌, not, arith,
}
use go_wst.Prelude.Result.{Result, ok, err}
use go_wst.Wt.Config.{Os, WtConf, write_temp_file, after_create, after_write, after_close}

-- What the package documents: `CreateTemp` makes a file that was not there, writing and closing
-- make and remove none, and `Remove` removes the file of that name or fails and changes nothing.
pub record IsFiles {F : Type 0} (os : Os F) : Type 0 where
  pub created :
      (pattern name : String) (f : F)
      → (os.create_temp pattern f).1 ≡ ok name
      → (os.has_file name f ≡ false)
        × ((m : String)
            → os.has_file m (os.create_temp pattern f).0 ≡ (str_eq m name || os.has_file m f))
  pub not_created :
      (pattern e m : String) (f : F)
      → (os.create_temp pattern f).1 ≡ err e
      → os.has_file m (os.create_temp pattern f).0 ≡ os.has_file m f
  pub written :
      (name content m : String) (f : F)
      → os.has_file m (os.write name content f).0 ≡ os.has_file m f
  pub closed : (name m : String) (f : F) → os.has_file m (os.close name f).0 ≡ os.has_file m f
  pub mode_set : (name m : String) (f : F) → os.has_file m (os.chmod name f) ≡ os.has_file m f
  pub removed :
      (name m : String) (f : F)
      → (os.remove name f).1 ≡ none
      → os.has_file m (os.remove name f).0 ≡ (not (str_eq m name) && os.has_file m f)
  pub not_removed :
      (name e m : String) (f : F)
      → (os.remove name f).1 ≡ some e
      → os.has_file m (os.remove name f).0 ≡ os.has_file m f

-- `Remove` of the file fails where it is there.
abbrev pub Refused : {F : Type 0} → Os F → String → Type 0
Refused {F} os m = (f : F) × (e : String) × (os.has_file m f ≡ true) × ((os.remove m f).1 ≡ some e)

unfoldable pub listed : String → List String → Bool
listed m [] = false
listed m (x ∷ xs) = str_eq m x || listed m xs

listed-append :
    (m x : String) (xs : List String) → listed m (xs ++ x ∷ []) ≡ (str_eq m x || listed m xs)
unfolding listed
listed-append m x [] = refl
listed-append m x (y ∷ ys) = ground (arith, listed-append m x ys)

module _ {F : Type 0} (os : Os F) (files : IsFiles os) where
  -- The files of `before`, none of which is a temporary one, are there, and but for the listed ones
  -- and those that `Remove` did not remove there are no others.
  pub record Tracks (before : F) (w : WtConf × F) : Type 0 where
    pub kept : (m : String) → os.has_file m before ≡ true → os.has_file m w.1 ≡ true
    pub only :
        (m : String)
        → os.has_file m w.1 ≡ true
        → ((listed m w.0.temp_files || os.has_file m before) ≡ true) ⊎ Refused os m
    pub apart : (m : String) → listed m w.0.temp_files ≡ true → os.has_file m before ≡ false

  -- One more file, with a new name.
  record Open (before : F) (name : String) (c : WtConf) (f : F) : Type 0 where
    pub kept : (m : String) → os.has_file m before ≡ true → os.has_file m f ≡ true
    pub only :
        (m : String)
        → os.has_file m f ≡ true
        → ((str_eq m name || (listed m c.temp_files || os.has_file m before)) ≡ true) ⊎ Refused os m
    fresh : os.has_file name before ≡ false
    pub apart : (m : String) → listed m c.temp_files ≡ true → os.has_file m before ≡ false

  -- A file that is there after a call of `Remove` was there before, and is not the one to be removed
  -- unless that failed.
  pub after_remove :
      (name m : String) (f : F)
      → os.has_file m (os.remove name f).0 ≡ true
      → (os.has_file m f ≡ true) × ((str_eq m name ≡ false) ⊎ Refused os m)
  after_remove name m f h = elim (Option-cases (os.remove name f).1) [
    | inl fine ↦ (
      ground (arith, files.removed name m f fine),
      inl (ground (arith, files.removed name m f fine)),
    )
    | inr (e, failed) ↦
        let here : os.has_file m f ≡ true = sym (files.not_removed name e m f failed) ∙ h in
        (
          here,
          elim (Bool-cases (str_eq m name)) [
            | inl same ↦
                let path = (eq_iff m name).0 same in
                inr (f, e, here, subst (λ n. (os.remove n f).1 ≡ some e) (sym path) failed)
            | inr other ↦ inl other
          ],
        )
  ]

  -- `Remove` leaves the other files.
  pub remove_other :
      (name m : String) (f : F)
      → str_eq m name ≡ false
      → os.has_file m f ≡ true
      → os.has_file m (os.remove name f).0 ≡ true
  remove_other name m f other here = elim (Option-cases (os.remove name f).1) [
    | inl fine ↦ ground (arith, files.removed name m f fine)
    | inr (e, failed) ↦ files.not_removed name e m f failed ∙ here
  ]

  remove-Tracks :
      (before : F) (name : String) (c : WtConf) (f : F)
      → Open before name c f
      → Tracks before (c, (os.remove name f).0)
  remove-Tracks before name c f v = record {
    kept = λ m h. remove_other name m f (ground (arith, v.fresh, eq_iff m name)) (v.kept m h);
    only = λ m h.
        let (here, gone) = after_remove name m f h in
        elim gone [
          | inl other ↦ elim (v.only m here) [
            | inl known ↦ inl (ground arith)
            | inr refused ↦ inr refused
          ]
          | inr refused ↦ inr refused
        ];
    apart = v.apart;
  }

  after_close-Tracks :
      (before : F) (name : String) (c : WtConf) (r : F × Option String)
      → Open before name c r.0
      → Tracks before (after_close os name c r).0
  unfolding after_close
  after_close-Tracks before name c (f, some e) v = remove-Tracks before name c f v
  after_close-Tracks before name c (f, none) v = record {
    kept = λ m h. files.mode_set name m f ∙ v.kept m h;
    only = λ m h. elim (v.only m (sym (files.mode_set name m f) ∙ h)) [
      | inl known ↦ inl (ground (arith, listed-append m name c.temp_files))
      | inr refused ↦ inr refused
    ];
    apart =
        λ m h. ground (arith, v.apart m, v.fresh, eq_iff m name, listed-append m name c.temp_files);
  }

  same_files :
      (before : F) (name : String) (c : WtConf) (f f' : F)
      → ((m : String) → os.has_file m f' ≡ os.has_file m f)
      → Open before name c f
      → Open before name c f'
  same_files before name c f f' same v = record {
    kept = λ m h. same m ∙ v.kept m h;
    only = λ m h. v.only m (sym (same m) ∙ h);
    fresh = v.fresh;
    apart = v.apart;
  }

  after_write-Tracks :
      (before : F) (name : String) (c : WtConf) (r : F × Option String)
      → Open before name c r.0
      → Tracks before (after_write os name c r).0
  unfolding after_write
  after_write-Tracks before name c (f, some e) v =
      remove-Tracks before name c (os.close name f).0
        (same_files before name c f (os.close name f).0 (λ m. files.closed name m f) v)
  after_write-Tracks before name c (f, none) v =
      after_close-Tracks before name c (os.close name f)
        (same_files before name c f (os.close name f).0 (λ m. files.closed name m f) v)

  after_create-Tracks :
      (before : F) (content : String) (c : WtConf) (f : F) (r : F × Result String String)
      → Tracks before (c, f)
      → ((e m : String) → r.1 ≡ err e → os.has_file m r.0 ≡ os.has_file m f)
      → ((name : String)
          → r.1 ≡ ok name
          → (os.has_file name f ≡ false)
            × ((m : String) → os.has_file m r.0 ≡ (str_eq m name || os.has_file m f)))
      → Tracks before (after_create os content c r).0
  unfolding after_create
  after_create-Tracks before content c f (f', err e) v fails makes = record {
    kept = λ m h. fails e m refl ∙ v.kept m h;
    only = λ m h. v.only m (sym (fails e m refl) ∙ h);
    apart = v.apart;
  }
  after_create-Tracks before content c f (f', ok name) v fails makes =
      let (new, now) = makes name refl in
      let opened : Open before name c f' = record {
        kept = λ m h. ground (arith, now m, v.kept m h);
        only = λ m h. elim (Bool-cases (str_eq m name)) [
          | inl same ↦ inl (ground arith)
          | inr other ↦ elim (v.only m (ground (arith, now m))) [
            | inl known ↦ inl (ground arith)
            | inr refused ↦ inr refused
          ]
        ];
        fresh = elim (Bool-cases (os.has_file name before)) [
          | inl there ↦ ground (arith, v.kept name there)
          | inr absent ↦ absent
        ];
        apart = v.apart;
      } in
      after_write-Tracks before name c (os.write name content f') (
        same_files before name c f' (os.write name content f').0
          (λ m. files.written name content m f') opened)

  pub write_temp_file-Tracks :
      (before : F) (pattern content : String) (w : WtConf × F)
      → Tracks before w
      → Tracks before (write_temp_file os pattern content w).0
  unfolding write_temp_file
  write_temp_file-Tracks before pattern content (c, f) v =
      after_create-Tracks before content c f (os.create_temp pattern f) v
        (λ e m. files.not_created pattern e m f) (λ name. files.created pattern name f)
