-- ===== src/Server/Dirs/Links.antt =====
-- Symbolic links in a listing: restrictingSymlinkByFileInfo in internal/server/wsfs/commands.go.
use wsfs_core.Prelude.{
  ℕ, ◌≡◌, refl, ap, ◌∙◌, sym, Bool-cases, inl, inr, true, false, List, [], ◌∷◌, ◌++◌, All, arith,
  if◌then◌else◌,
}
use wsfs_core.Wire.Bytes.{Bytes}
use wsfs_core.Wire.Attr.{Dirent}
use wsfs_core.Util.Strings.{has_prefix}
use wsfs_core.Server.Errno.{Sys, SysResult, failed}
use wsfs_core.Server.Session.{FsIds}
use wsfs_core.Server.Handler.{has_flag, and_then, return}
use wsfs_core.Server.Dirs.{
  Dirs, FileStat, absolute, mode_symlink, restricting_symlink, resolved, lookup_dirent,
  lookup_dirent_safe, irregular, conv_owner,
}
use wsfs_core.Server.Dirs.Reading.{Reading, looked_up, at_its_end, nothing_more, goes_on}

All-both : {A : Type 0} (P : A → Type 0) (xs ys : List A) → All P xs → All P ys → All P (xs ++ ys)
All-both P [] ys hx hy = hy
All-both P (x ∷ xs) ys hx hy = (hx.0, All-both P xs ys hx.1 hy)

and_then-result :
    {World A B : Type 0} (m : World × SysResult A) (f : A → Sys World B) (w' : World) (b : B)
    → (let (w1, r) = m in elim r [ SysResult.done a ↦ f a w1 | failed e ↦ (w1, failed e) ])
      ≡ (w', SysResult.done b)
    → (w1 : World) × (a : A) × (m ≡ (w1, SysResult.done a)) × (f a w1 ≡ (w', SysResult.done b))
and_then-result (w1, SysResult.done a) f w' b e = (w1, a, refl, e)
and_then-result (w1, failed x) f w' b e = let r = ap (λ p. p.1) e in absurd (ground arith)

-- A call that is made first and gives what the second goes on with.
and_then-inverse :
    {World A B : Type 0} (m : Sys World A) (f : A → Sys World B) (w w' : World) (b : B)
    → and_then m f w ≡ (w', SysResult.done b)
    → (w1 : World) × (a : A) × (m w ≡ (w1, SysResult.done a)) × (f a w1 ≡ (w', SysResult.done b))
unfolding and_then
and_then-inverse m f w w' b e = and_then-result (m w) f w' b e

-- The call that follows links gives no link, and the other the name that it was asked for.
pub record StatsLinks {World : Type 0} (dirs : Dirs World) (base : Bytes) : Type 0 where
  pub follows :
      (path : Bytes) (w w' : World) (fi : FileStat)
      → dirs.stat path true w ≡ (w', SysResult.done fi)
      → has_flag fi.mode mode_symlink ≡ false
  pub names :
      (name : Bytes) (w w' : World) (fi : FileStat)
      → dirs.stat (base ++ name) false w ≡ (w', SysResult.done fi)
      → fi.name ≡ name

abbrev pub value_or : {A : Type 0} → A → SysResult A → A
value_or a (SysResult.done b) = b
value_or a (failed e) = a

same_value :
    {World A : Type 0} (a b : A) (w w' : World)
    → ◌≡◌ {A = World × SysResult A} (w, SysResult.done a) (w', SysResult.done b)
    → a ≡ b
same_value a b w w' e = ap (λ r. value_or a r.1) e

module _ {World : Type 0} (dirs : Dirs World) (storage base : Bytes) where
  -- The entry was read as a link whose target's path begins with the storage's.
  abbrev pub LeadsInside : Bytes → Type 0
  LeadsInside name =
      (w w' : World) × (target : Bytes) × (dirs.read_link (base ++ name) w
        ≡ (w', SysResult.done target))
      × (has_prefix (absolute dirs base target) storage ≡ true)

  abbrev IsLink : ℕ → Type 0
  IsLink mode = has_flag mode mode_symlink ≡ true

  restricting_symlink-inside :
      (fi got : FileStat) (w w' : World)
      → StatsLinks dirs base
      → restricting_symlink dirs storage base fi w ≡ (w', SysResult.done got)
      → IsLink got.mode
      → LeadsInside fi.name
  unfolding restricting_symlink
  restricting_symlink-inside fi got w w' h e link =
      let seen : Bytes → Sys World FileStat = λ target.
        if has_prefix (absolute dirs base target) storage
        then return (record fi { mtime = dirs.mtime_of fi })
        else dirs.stat (base ++ fi.name) true in
      let (w1, target, read, e1) =
        and_then-inverse (dirs.read_link (base ++ fi.name)) seen w w' got e in
      elim (Bool-cases (has_prefix (absolute dirs base target) storage)) [
        | inl inside ↦ (w, w1, target, read, inside)
        | inr outside ↦
            let same : FileStat = record fi { mtime = dirs.mtime_of fi } in
            let e2 : dirs.stat (base ++ fi.name) true w1 ≡ (w', SysResult.done got) =
              sym
                (ap (λ b. (if b then return same else dirs.stat (base ++ fi.name) true) w1) outside)
              ∙ e1 in
            absurd (ground (arith, h.follows (base ++ fi.name) w1 w' got e2))
      ]

  resolved-inside :
      (fi got : FileStat) (w w' : World)
      → StatsLinks dirs base
      → resolved dirs storage base fi w ≡ (w', SysResult.done got)
      → IsLink got.mode
      → LeadsInside fi.name
  resolved-inside fi got w w' h e link = elim (Bool-cases (has_flag fi.mode mode_symlink)) [
    | inl is ↦
        restricting_symlink-inside fi got w w' h
          (sym (ap (λ b. (if b then restricting_symlink dirs storage base fi else return fi) w) is)
            ∙ e)
          link
    | inr isnt ↦
        let same : fi ≡ got = same_value fi got w w' (
          sym (ap (λ b. (if b then restricting_symlink dirs storage base fi else return fi) w) isnt)
          ∙ e) in
        absurd (ground (arith, ap (λ x. has_flag x.mode mode_symlink) same))
  ]

  -- What is answered for an entry after the calls on it.
  safe_entry :
      (name : Bytes) (r : World × SysResult Dirent)
      → ((w : World) (d : Dirent) → r ≡ (w, SysResult.done d) → IsLink d.mode → LeadsInside d.name)
      → let answer : World × Dirent = elim r.1 [
        | SysResult.done d ↦ (r.0, d)
        | failed e ↦ (r.0, irregular name)
      ] in
        IsLink answer.1.mode → LeadsInside answer.1.name
  safe_entry name (w, SysResult.done d) inside link = inside w d refl link
  safe_entry name (w, failed e) inside link = absurd (ground arith)

  module _ (ids : FsIds) where
    abbrev entry_of : Bytes → FileStat → Dirent
    entry_of name fi = record {
      name = name;
      size = fi.size;
      mtime = fi.mtime;
      mode = fi.mode;
      owner = conv_owner ids fi;
    }

    lookup_dirent-inside :
        (name : Bytes) (d : Dirent) (w w' : World)
        → StatsLinks dirs base
        → lookup_dirent dirs storage ids base name w ≡ (w', SysResult.done d)
        → IsLink d.mode
        → LeadsInside d.name
    unfolding lookup_dirent
    lookup_dirent-inside name d w w' h e link =
        let answer : FileStat → Sys World Dirent = λ fi. return (entry_of name fi) in
        let (w1, on_disk, st, e1) =
          and_then-inverse (dirs.stat (base ++ name) false)
            (λ fi. and_then (resolved dirs storage base fi) answer) w w' d e in
        let (w2, fi, res, e2) =
          and_then-inverse (resolved dirs storage base on_disk) answer w1 w' d e1 in
        let same : entry_of name fi ≡ d = same_value (entry_of name fi) d w2 w' e2 in
        let is : IsLink fi.mode = ap (λ x. has_flag x.mode mode_symlink) same ∙ link in
        let named : on_disk.name ≡ d.name = h.names name w w1 on_disk st ∙ ap (λ x. x.name) same in
        rw (← named) (resolved-inside on_disk fi w1 w2 h res is)

    lookup_dirent_safe-inside :
        (name : Bytes) (w : World)
        → StatsLinks dirs base
        → let d = (lookup_dirent_safe dirs storage ids base name w).1 in
          IsLink d.mode → LeadsInside d.name
    unfolding lookup_dirent_safe
    lookup_dirent_safe-inside name w h =
        safe_entry name (lookup_dirent dirs storage ids base name w)
          λ w' d e. lookup_dirent-inside name d w w' h e

    looked_up-inside :
        (names : List Bytes) (w : World)
        → StatsLinks dirs base
        → All (λ d. IsLink d.mode → LeadsInside d.name) (looked_up dirs storage ids base names w).1
    looked_up-inside [] w h = tt
    looked_up-inside (name ∷ names) w h = (
      lookup_dirent_safe-inside name w h,
      looked_up-inside names (lookup_dirent_safe dirs storage ids base name w).0 h,
    )

    -- Any entry of a listing that is shown as a symbolic link was read as one, and the absolute path of
    -- its target begins with the storage's. The system's stat gives the entry's name, and no link
    -- where it follows links.
    pub shown_links-inside :
        (f k : ℕ) (w w' : World) (ds : List Dirent)
        → Reading dirs storage ids base f k w w' ds
        → StatsLinks dirs base
        → All (λ d. IsLink d.mode → LeadsInside d.name) ds
    shown_links-inside f k w w' ds (at_its_end k' _ w1 names e) h = looked_up-inside names w1 h
    shown_links-inside f k w w' ds (nothing_more k' _ w1 e) h = tt
    shown_links-inside f k w w' ds (goes_on k' _ w1 _ name names ds' e later) h =
        All-both (λ d. IsLink d.mode → LeadsInside d.name)
          (looked_up dirs storage ids base (name ∷ names) w1).1 ds'
          (looked_up-inside (name ∷ names) w1 h) (shown_links-inside f k' _ w' ds' later h)
