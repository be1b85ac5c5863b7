-- ===== src/Policy/Writable.antt =====
-- Which files and directories a policy makes writable.
use code_contests.Prelude.{
  arith, ℕ, ◌≡◌, refl, sym, ap, ◌∙◌, subst, ◌⊎◌, inl, inr, Bool, true, false, List, [], ◌∷◌, ◌++◌,
  map, All, All-append, Bool-cases, Text, codes,
}
use code_contests.Policy.{
  Call, add_file, add_directory, Mappings, join_paths, startup_calls, syscall_calls, mapping_calls,
  closing_calls, create_base_policy,
}

-- The path is one of a list, taken from the working directory.
abbrev pub AmongPaths : Text → Text → List Text → Type 0
AmongPaths cwd path [] = ⊥
AmongPaths cwd path (f ∷ fs) = (path ≡ join_paths cwd f) ⊎ AmongPaths cwd path fs

-- What a call makes writable was asked for.
abbrev pub WritesOnly : Text → Mappings → Call → Type 0
WritesOnly cwd m (add_file path false) = AmongPaths cwd path m.rw_files
WritesOnly cwd m (add_directory path false) = AmongPaths cwd path m.rw_dirs
WritesOnly cwd m _ = Unit

-- One more list before, with `AmongPaths` kept.
AmongPaths-later :
    (cwd path : Text) (before fs : List Text)
    → AmongPaths cwd path fs
    → AmongPaths cwd path (before ++ fs)
AmongPaths-later cwd path [] fs h = h
AmongPaths-later cwd path (b ∷ before) fs h = inr (AmongPaths-later cwd path before fs h)

AmongPaths-here :
    (cwd f : Text) (before after : List Text)
    → AmongPaths cwd (join_paths cwd f) (before ++ f ∷ after)
AmongPaths-here cwd f before after =
    AmongPaths-later cwd (join_paths cwd f) before (f ∷ after) (inl refl)

snoc :
    (before : List Text) (f : Text) (fs : List Text) → before ++ f ∷ fs ≡ (before ++ f ∷ []) ++ fs
snoc [] f fs = refl
snoc (b ∷ before) f fs = ap (λ x. b ∷ x) (snoc before f fs)

module _ (P : Call → Type 0) (g : Text → Call) where
  -- A property of the calls for all entries of a list, given the entries before each.
  All-map_in :
      (before fs : List Text)
      → ((b a : List Text) (f : Text) → before ++ fs ≡ b ++ f ∷ a → P (g f))
      → All P (map g fs)
  All-map_in before [] h = tt
  All-map_in before (f ∷ fs) h = (
    h before fs f refl,
    All-map_in (before ++ f ∷ []) fs (λ b a x e. h b a x (snoc before f fs ∙ e)),
  )

  pub All-map_any : ((f : Text) → P (g f)) → (fs : List Text) → All P (map g fs)
  All-map_any h [] = tt
  All-map_any h (f ∷ fs) = (h f, All-map_any h fs)

module _ (defined : Text → Bool) (clone_flags set_name madv_free : ℕ) where
  startup-WritesOnly : (cwd : Text) (m : Mappings) → All (WritesOnly cwd m) (startup_calls defined)
  startup-WritesOnly cwd m = elim (Bool-cases (defined (codes "readlink"))) [
    | inl h ↦ rw h (ground arith)
    | inr h ↦ rw h (ground arith)
  ]

  syscall-WritesOnly :
      (cwd : Text) (m : Mappings)
      → All (WritesOnly cwd m) (syscall_calls defined clone_flags set_name madv_free)
  syscall-WritesOnly cwd m = (ground arith)

  mapping-WritesOnly :
      (cwd : Text) (m : Mappings)
      → All (WritesOnly cwd m) (mapping_calls defined clone_flags set_name madv_free cwd m)
  mapping-WritesOnly cwd m =
      All-append (WritesOnly cwd m) (map (λ f. add_file (join_paths cwd f) true) m.ro_files) _
        (All-map_any (WritesOnly cwd m) (λ f. add_file (join_paths cwd f) true) (λ f. tt)
          m.ro_files)
        (All-append (WritesOnly cwd m) (map (λ f. add_file (join_paths cwd f) false) m.rw_files) _
          (All-map_in (WritesOnly cwd m) (λ f. add_file (join_paths cwd f) false) [] m.rw_files
            (λ b a f e.
              subst (AmongPaths cwd (join_paths cwd f)) (sym e) (AmongPaths-here cwd f b a)))
          (All-append (WritesOnly cwd m)
            (map (λ d. add_directory (join_paths cwd d) true) m.ro_dirs) _
            (All-map_any (WritesOnly cwd m) (λ d. add_directory (join_paths cwd d) true) (λ d. tt)
              m.ro_dirs)
            (All-map_in (WritesOnly cwd m) (λ d. add_directory (join_paths cwd d) false) []
              m.rw_dirs
              (λ b a d e.
                subst (AmongPaths cwd (join_paths cwd d)) (sym e) (AmongPaths-here cwd d b a)))))

  -- A policy makes no file and no directory writable but those that were asked to be, taken from the
  -- working directory.
  pub create_base_policy-WritesOnly :
      (cwd binary : Text) (m : Mappings)
      → All
          (WritesOnly cwd m)
          (create_base_policy defined clone_flags set_name madv_free cwd binary m)
  unfolding create_base_policy
  create_base_policy-WritesOnly cwd binary m =
      All-append (WritesOnly cwd m) (startup_calls defined) _ (startup-WritesOnly cwd m) (
        All-append (WritesOnly cwd m) (syscall_calls defined clone_flags set_name madv_free) _
          (syscall-WritesOnly cwd m)
          (All-append (WritesOnly cwd m) _
            (closing_calls defined clone_flags set_name madv_free binary) (mapping-WritesOnly cwd m)
            (ground arith)))
