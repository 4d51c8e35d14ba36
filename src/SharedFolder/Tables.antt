-- ===== src/SharedFolder/Tables.antt =====
-- The tables of the FUSE server under its requests (src/platform/shared_folder).
use ferrum_vm.Prelude.{
  ℕ, ◌+◌, ◌/◌, ◌≡◌, refl, subst, Bool, true, false, Option, none, some, List, [], ◌∷◌, ◌++◌, length,
  ltb, leb, arith, debug, add_word, u64_mod, Bool-cases, inl, inr,
}
use ferrum_vm.Prelude.HashMap
use ferrum_vm.Prelude.HashMap.{get-insert, get-remove}
use ferrum_vm.SharedFolder.Host.{IoResult, success, failure, Metadata, DirEntry, HostFs}
use ferrum_vm.SharedFolder.{SharedFolder}
use ferrum_vm.SharedFolder.Handlers.{Handler}
use ferrum_vm.SharedFolder.Wire.{
  FuseInHeader, attr_fields, fuse_attr_bytes, build_entry_out, build_attr_out,
}
use ferrum_vm.SharedFolder.Node.{
  utf8, name_of, child, touch, set_mode, set_size, lookup, get_attr, make_node, make_directory,
  make_symlink, set_attr, unlink, rmdir, rename, readlink,
}
use ferrum_vm.SharedFolder.File.{
  padded, dirent, metadata_of, entries_from, created, forget_file, file_of, sync_file, fresh_fh,
  set_minor, create, open_file, release, read, write, fsync, open_dir, read_dir, init,
}
use ferrum_vm.SharedFolder.Keeps.{
  IsFresh, Extends, Goes, Keeps, same-Goes, Keeps-word, Keeps-pure, Keeps-fail, Keeps-bind,
  keeps_rules,
}

module _ {P F H : Type 0} (os : HostFs P F H) where
  pub Keeps-utf8 : (bytes : List ℕ) → Keeps (utf8 {S = SharedFolder P F H} bytes)
  unfolding utf8
  Keeps-utf8 bytes = search keeps_rules

  pub Keeps-name_of : (bytes : List ℕ) → Keeps (name_of {S = SharedFolder P F H} bytes)
  unfolding name_of
  Keeps-name_of bytes = search (keeps_rules, Keeps-utf8)

  pub Keeps-child : (header : FuseInHeader) (name : List ℕ) → Keeps (child debug os header name)
  unfolding child
  Keeps-child header name = search keeps_rules

  pub Keeps-fuse_attr_bytes :
      (ino : ℕ) (meta : Metadata) → Keeps (fuse_attr_bytes {S = SharedFolder P F H} debug ino meta)
  unfolding fuse_attr_bytes
  Keeps-fuse_attr_bytes ino meta =
      Keeps-word (add_word debug u64_mod meta.size 511) (λ n. attr_fields ino meta (n / 512))

  pub Keeps-build_entry_out :
      (nodeid : ℕ) (meta : Metadata)
      → Keeps (build_entry_out {S = SharedFolder P F H} debug nodeid meta)
  unfolding build_entry_out
  Keeps-build_entry_out nodeid meta = search (keeps_rules, Keeps-fuse_attr_bytes)

  pub Keeps-build_attr_out :
      (meta : Metadata) → Keeps (build_attr_out {S = SharedFolder P F H} debug meta)
  unfolding build_attr_out
  Keeps-build_attr_out meta = search (keeps_rules, Keeps-fuse_attr_bytes)

  pub ruleset part_rules = (
    keeps_rules, Keeps-utf8, Keeps-name_of, Keeps-child, Keeps-build_entry_out,
    Keeps-build_attr_out,
  )

  pub Keeps-lookup : (header : FuseInHeader) (body : List ℕ) → Keeps (lookup debug os header body)
  unfolding lookup
  Keeps-lookup header body = search part_rules depth 16

  pub Keeps-get_attr : (header : FuseInHeader) → Keeps (get_attr debug os header)
  unfolding get_attr
  Keeps-get_attr header = search part_rules depth 16

  pub Keeps-make_node :
      (header : FuseInHeader) (body : List ℕ) → Keeps (make_node debug os header body)
  unfolding make_node touch
  Keeps-make_node header body = search part_rules depth 16

  pub Keeps-make_directory :
      (header : FuseInHeader) (body : List ℕ) → Keeps (make_directory debug os header body)
  unfolding make_directory set_mode
  Keeps-make_directory header body = search part_rules depth 16

  pub Keeps-make_symlink :
      (header : FuseInHeader) (body : List ℕ) → Keeps (make_symlink debug os header body)
  unfolding make_symlink
  Keeps-make_symlink header body = search part_rules depth 16

  pub Keeps-set_attr :
      (header : FuseInHeader) (body : List ℕ) → Keeps (set_attr debug os header body)
  unfolding set_attr set_size set_mode
  Keeps-set_attr header body = search part_rules depth 16

  pub Keeps-unlink : (header : FuseInHeader) (body : List ℕ) → Keeps (unlink debug os header body)
  unfolding unlink
  Keeps-unlink header body = search part_rules depth 16

  pub Keeps-rmdir : (header : FuseInHeader) (body : List ℕ) → Keeps (rmdir debug os header body)
  unfolding rmdir
  Keeps-rmdir header body = search part_rules depth 16

  pub Keeps-rename : (header : FuseInHeader) (body : List ℕ) → Keeps (rename debug os header body)
  unfolding rename
  Keeps-rename header body = search part_rules depth 16

  pub Keeps-readlink : (header : FuseInHeader) → Keeps (readlink debug os header)
  unfolding readlink
  Keeps-readlink header = search part_rules depth 16

  pub Keeps-metadata_of : (e : DirEntry) → Keeps (metadata_of {S = SharedFolder P F H} e)
  unfolding metadata_of
  Keeps-metadata_of e = search keeps_rules

  -- A test under `elim`.
  pub Keeps-elim :
      {A : Type 0} (c : Bool) (m n : Handler (SharedFolder P F H) A)
      → Keeps m
      → Keeps n
      → Keeps {P = P} {F = F} {H = H} (elim c [ true ↦ m | false ↦ n ])
  Keeps-elim true m n h k = h
  Keeps-elim false m n h k = k

  pub Keeps-entries_from :
      (offset max_size : ℕ) (es : List DirEntry) (pos : ℕ) (out : List ℕ)
      → Keeps (entries_from {S = SharedFolder P F H} offset max_size es pos out)
  unfolding entries_from
  Keeps-entries_from offset max_size [] pos out = search keeps_rules
  Keeps-entries_from offset max_size (e ∷ es) pos out =
      Keeps-elim (leb pos offset) _ _ (Keeps-entries_from offset max_size es (pos + 1) out) (
        Keeps-bind (metadata_of e) _ (Keeps-metadata_of e) (λ meta.
          Keeps-elim (ltb max_size (length out + padded (24 + length e.name))) _ _ (Keeps-pure out)
            (Keeps-entries_from offset max_size es (pos + 1) (out ++ dirent e meta pos))))

  pub Keeps-read_dir :
      (header : FuseInHeader) (body : List ℕ) → Keeps (read_dir debug os header body)
  unfolding read_dir
  Keeps-read_dir header body = search (part_rules, Keeps-entries_from) depth 16

  pub Keeps-created : (file : F) (r : IoResult Metadata) → Keeps (created debug os file r)
  unfolding created
  Keeps-created file (success meta) = search part_rules depth 16
  Keeps-created file (failure k) = search part_rules depth 16

  pub Keeps-create : (header : FuseInHeader) (body : List ℕ) → Keeps (create debug os header body)
  unfolding create
  Keeps-create header body = search (part_rules, Keeps-created) depth 16

  pub Keeps-open_file :
      (header : FuseInHeader) (body : List ℕ) → Keeps (open_file debug os header body)
  unfolding open_file
  Keeps-open_file header body = search part_rules depth 16

  pub Keeps-forget_file : (fh : ℕ) → Keeps (forget_file debug os fh)
  unfolding forget_file
  Keeps-forget_file fh = record {
    at = λ s o s' h g.
        let same : record s { open_files = HashMap.remove s.open_files fh } ≡ s' = cc in
        subst (λ u. IsFresh u × Extends s u) same
          (
            record {
              nodes = g.nodes;
              files = λ k f q. grind (arith, get-remove s.open_files fh k, g.files k f);
            },
            record { paths = λ k p q. q; later = omega arith },
          );
  }

  pub Keeps-release : (body : List ℕ) → Keeps (release debug os body)
  unfolding release
  Keeps-release body = search (part_rules, Keeps-forget_file) depth 16

  pub Keeps-file_of : (fh : ℕ) → Keeps (file_of debug os fh)
  unfolding file_of
  Keeps-file_of fh = search part_rules depth 16

  pub Keeps-read : (body : List ℕ) → Keeps (read debug os body)
  unfolding read
  Keeps-read body = search (part_rules, Keeps-file_of) depth 16

  pub Keeps-write : (body : List ℕ) → Keeps (write debug os body)
  unfolding write
  Keeps-write body = search (part_rules, Keeps-file_of) depth 16

  pub Keeps-sync_file : (o : Option F) → Keeps (sync_file debug os o)
  unfolding sync_file
  Keeps-sync_file none = search part_rules depth 16
  Keeps-sync_file (some f) = search part_rules depth 16

  pub Keeps-fsync : (body : List ℕ) → Keeps (fsync debug os body)
  unfolding fsync
  Keeps-fsync body = search (part_rules, Keeps-sync_file) depth 16

  pub Keeps-fresh_fh : Keeps (fresh_fh debug os)
  unfolding fresh_fh
  Keeps-fresh_fh = record {
    at = λ s o s' h. elim (Bool-cases (ltb (s.next_fh + 1) u64_mod)) [
      | inl room ↦
          let same : record s { next_fh = s.next_fh + 1 } ≡ s' = cc (rw (fresh_fh, room) at h) in
          subst (λ u. Goes s u) same
            (same-Goes s (record s { next_fh = s.next_fh + 1 }) refl refl refl (omega arith))
      | inr none_left ↦ cc (rw (fresh_fh, none_left) at h)
    ];
  }

  pub Keeps-open_dir : (header : FuseInHeader) → Keeps (open_dir debug os header)
  unfolding open_dir
  Keeps-open_dir header = search (part_rules, Keeps-fresh_fh) depth 16

  pub Keeps-set_minor : (minor : ℕ) → Keeps (set_minor debug os minor)
  unfolding set_minor
  Keeps-set_minor minor = record {
    at = λ s o s' h.
        let same : record s { proto_minor = some minor } ≡ s' = cc in
        subst (λ u. Goes s u) same
          (same-Goes s (record s { proto_minor = some minor }) refl refl refl (omega arith));
  }

  pub Keeps-init : (body : List ℕ) → Keeps (init debug os body)
  unfolding init
  Keeps-init body = search (part_rules, Keeps-set_minor) depth 16

  pub ruleset request_rules = (
    part_rules, Keeps-lookup, Keeps-get_attr, Keeps-make_node, Keeps-make_directory,
    Keeps-make_symlink, Keeps-set_attr, Keeps-unlink, Keeps-rmdir, Keeps-rename, Keeps-readlink,
    Keeps-read_dir, Keeps-create, Keeps-open_file, Keeps-release, Keeps-read, Keeps-write,
    Keeps-fsync, Keeps-open_dir, Keeps-init,
  )
