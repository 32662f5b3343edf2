-- ===== src/S3/Filter/Rules.antt =====
-- Which files the rules let through: the last rule that matches decides.

use m_awsexp.S3.Os.{Os}
use m_awsexp.S3.FileStat.{FileStat}
use m_awsexp.S3.Filter.{
  Filter, Pattern, status_after, match_pattern, make_filter, full_path_patterns, append_filter,
}
use m_awsexp.Common.{
  Option, List, Bool, none, some, ◌≡◌, ◌∷◌, true, if◌then◌else◌, Str, arith, ◌++◌, [], refl,
}

module _ (os : Os) where
  -- A rule speaks of a file by its pattern below the destination, and else by the one below the
  -- source.
  abbrev pub says : Pattern → Pattern → FileStat → Option Bool
  says p d f = elim (match_pattern os d f) [ none ↦ match_pattern os p f | some b ↦ some b ]

  -- What the last rule that matches the file says.
  pub last_rule : List Pattern → List Pattern → FileStat → Option Bool
  last_rule (p ∷ ps) (d ∷ ds) f = elim (last_rule ps ds f) [ none ↦ says p d f | some b ↦ some b ]
  last_rule _ _ f = none

  abbrev pub or_else : Option Bool → Bool → Bool
  or_else none b = b
  or_else (some c) b = c

  pub select : (FileStat → Bool) → List FileStat → List FileStat
  select test [] = []
  select test (x ∷ xs) = let kept = select test xs in if test x then x ∷ kept else kept

  full_path_patterns-append :
      (ps qs : List Pattern) (root : Str)
      → full_path_patterns os (ps ++ qs) root
        ≡ full_path_patterns os ps root ++ full_path_patterns os qs root
  unfolding full_path_patterns
  full_path_patterns-append [] qs root = refl
  full_path_patterns-append (p ∷ ps) qs root = rw (full_path_patterns-append ps qs root)

  status_after-append :
      (ps : List Pattern) (src_root dst_root : Str) (p d : Pattern) (f : FileStat) (status : Bool)
      → status_after os
          (full_path_patterns os ps src_root ++ p ∷ [])
          (full_path_patterns os ps dst_root ++ d ∷ [])
          f
          status
        ≡ or_else (says p d f) (
            status_after os
              (full_path_patterns os ps src_root)
              (full_path_patterns os ps dst_root)
              f
              status)
  unfolding status_after full_path_patterns
  status_after-append [] s t p d f status = ground arith
  status_after-append (q ∷ ps) s t p d f status = status_after-append ps s t p d f _

  -- One more rule at the end of the command line decides over every file that it matches, and
  -- leaves the others as the rules before it left them.
  pub append_filter-decides :
      (ps : List Pattern) (kind value src_root dst_root : Str) (x : FileStat)
      → let before = make_filter os ps src_root dst_root in
        let after = make_filter os (append_filter ps kind value) src_root dst_root in
        status_after os after.patterns after.dst_patterns x true
        ≡ or_else
            (says (kind, os.join src_root value) (kind, os.join dst_root value) x)
            (status_after os before.patterns before.dst_patterns x true)
  unfolding append_filter full_path_patterns
  append_filter-decides ps kind value s t x =
      rw
        (
          full_path_patterns-append ps ((kind, value) ∷ []) s,
          full_path_patterns-append ps ((kind, value) ∷ []) t,
        )
        (status_after-append ps s t _ _ x true)
