-- ===== src/Configure/Tests.antt =====
-- Files as they are before and after.
use m_awsexp.Common.{
  lookup, Str, some, codes, ◌∷◌, [], ◌≡◌, refl, none, ends_with, ℕ, inr, false, inl, Free, arith,
}
use m_awsexp.Configure.Writer.{update_config, nested, scalar, readlines, Items, new_text}
use m_awsexp.Configure.Set.{run_main, choose_file, contains}
use m_awsexp.Configure.Line.{is_header, rstrip, option_match, section_match, strip, lstrip}
use m_awsexp.Configure.Set.Scopes.{run_main-scopes}
use m_awsexp.Configure.Writer.Twice.{update_config-twice}
use m_awsexp.Configure.Writer.Nested.{update_config-unbound_local, update_config-new_nested}
use m_awsexp.Configure.Writer.Scalars.{update_config-existing, update_config-new}

abbrev before : Str
before = codes "[a]\nfoo = bar\n\n[b]\n\nfoo = bar\n\n[c]\nfoo = bar\n"

middle_example :
    update_config (some before) (codes "b") ((codes "newvalue", scalar (codes "v")) ∷ [])
    ≡ some (codes "[a]\nfoo = bar\n\n[b]\n\nfoo = bar\nnewvalue = v\n\n[c]\nfoo = bar\n")
unfolding update_config
middle_example = refl

nested_example :
    update_config
      (some (codes "[default]\ns3 =\n    other = foo\nec2 = bar\n"))
      (codes "default")
      ((codes "s3", nested ((codes "signature_version", codes "newval") ∷ [])) ∷ [])
    ≡ some (codes "[default]\ns3 =\n    other = foo\n    signature_version = newval\nec2 = bar\n")
unfolding update_config
nested_example = refl

quoted_example :
    update_config
      (some (codes "[profile \"foobar\"]\nfoo=1\nbar = 1"))
      (codes "profile foobar")
      ((codes "foo", scalar (codes "n")) ∷ [])
    ≡ some (codes "[profile \"foobar\"]\nfoo = n\nbar = 1")
unfolding update_config
quoted_example = refl

glued_example :
    update_config
      (some (codes "[default]\nfoo = 1\n# c"))
      (codes "default")
      ((codes "bar", scalar (codes "n")) ∷ [])
    ≡ some (codes "[default]\nfoo = 1\n# cbar = n\n\n")
unfolding update_config
glued_example = refl

wrong_section_example :
    update_config
      (some (codes "[default]\n[other]\nfoo = 1\n"))
      (codes "default")
      ((codes "bar", scalar (codes "n")) ∷ [])
    ≡ some (codes "[default]\n[other]\nbar = n\nfoo = 1\n")
unfolding update_config
wrong_section_example = refl

lost_example :
    update_config
      (some (codes "[default]\ns3 =\n    a = b\n"))
      (codes "default")
      ((codes "s3", nested ((codes "c", codes "d") ∷ [])) ∷ [])
    ≡ some (codes "[default]\ns3 =\n    a = b\n")
unfolding update_config
lost_example = refl

clobbered_example :
    update_config
      (some (codes "[default]\ns3 =\n    region = x\n"))
      (codes "default")
      ((codes "region", scalar (codes "n")) ∷ [])
    ≡ some (codes "[default]\ns3 =\nregion = n\n")
unfolding update_config
clobbered_example = refl

glued_header_example :
    update_config
      (some (codes "[a]\nfoo = 1"))
      (codes "default")
      ((codes "bar", scalar (codes "n")) ∷ [])
    ≡ some (codes "[a]\nfoo = 1[default]\nbar = n\n")
unfolding update_config
glued_header_example = refl

-- A character that a test does not find is not there.
Free-contains : (c : ℕ) (s : Str) → contains c s ≡ false → Free c s
unfolding contains
Free-contains c [] h = tt
Free-contains c (d ∷ s) h = ((λ e. ground arith), Free-contains c s (ground arith))

abbrev default : Str
default = codes "[default]\n"

abbrev scalars : Items
scalars = (codes "foo", scalar (codes "n")) ∷ []

update_config-existing_example :
    update_config
      (some (codes "# c\n[default]\nbar=1\n\nfoo=1\n[b]\nfoo = 2"))
      (codes "default")
      scalars
    ≡ some (codes "# c\n[default]\nbar=1\n\nfoo = n\n[b]\nfoo = 2")
unfolding readlines is_header option_match section_match lookup strip
update_config-existing_example =
    update_config-existing (codes "# c\n[default]\nbar=1\n\nfoo=1\n[b]\nfoo = 2") (codes "default")
      (codes "# c\n" ∷ []) default (codes "bar=1\n" ∷ codes "\n" ∷ []) (codes "foo=1\n")
      (codes "[b]\n" ∷ codes "foo = 2" ∷ []) (codes "foo") (codes "n") (codes "foo") refl
      ((refl, tt), refl) (inr (codes "bar", refl, refl), (inl (refl, refl), tt)) refl refl

update_config-new_example :
    update_config (some before) (codes "b") ((codes "newvalue", scalar (codes "v")) ∷ [])
    ≡ some (codes "[a]\nfoo = bar\n\n[b]\n\nfoo = bar\nnewvalue = v\n\n[c]\nfoo = bar\n")
unfolding readlines is_header option_match section_match lookup strip new_text
update_config-new_example =
    update_config-new before (codes "b") (codes "[a]\n" ∷ codes "foo = bar\n" ∷ codes "\n" ∷ [])
      (codes "[b]\n") (codes "\n" ∷ []) (codes "foo = bar\n") (codes "\n" ∷ []) (codes "[c]\n")
      (codes "foo = bar\n" ∷ []) ((codes "newvalue", scalar (codes "v")) ∷ []) refl
      ((refl, (refl, (refl, tt))), refl)
      ((inl (refl, refl), tt), (codes "foo ", refl, refl), ((refl, refl), tt)) refl refl

update_config-new_nested_example :
    update_config
      (some (codes "[default]\ns3 =\n    other = foo\nec2 = bar\n"))
      (codes "default")
      ((codes "s3", nested ((codes "signature_version", codes "newval") ∷ [])) ∷ [])
    ≡ some (codes "[default]\ns3 =\n    other = foo\n    signature_version = newval\nec2 = bar\n")
unfolding readlines is_header option_match section_match lookup strip new_text lstrip
update_config-new_nested_example =
    update_config-new_nested (codes "[default]\ns3 =\n    other = foo\nec2 = bar\n")
      (codes "default") [] default [] (codes "s3 =\n") (codes "s3") (codes "s3 ")
      ((codes "signature_version", codes "newval") ∷ []) (codes "    other = foo\n") []
      (codes "ec2 = bar\n") [] refl ((tt, refl), tt, refl, refl)
      ((codes "    other ", refl, refl, refl, refl), tt) (inl (codes "ec2 ", refl, refl, refl))

update_config-unbound_local_example :
    update_config
      (some (codes "[default]\ns3 =\n# a comment\n    other = foo\n"))
      (codes "default")
      ((codes "s3", nested ((codes "k", codes "v") ∷ [])) ∷ [])
    ≡ none
unfolding readlines is_header option_match section_match lookup strip
update_config-unbound_local_example =
    update_config-unbound_local (codes "[default]\ns3 =\n# a comment\n    other = foo\n")
      (codes "default") [] default [] (codes "s3 =\n") (codes "s3") (codes "s3 ")
      ((codes "k", codes "v") ∷ []) (codes "# a comment\n" ∷ codes "    other = foo\n" ∷ []) refl
      ((tt, refl), tt, refl, refl) refl

update_config-twice_example :
    update_config
      (some (codes "# c\n[default]\nfoo = 1\n"))
      (codes "default")
      ((codes "foo", scalar (codes "2")) ∷ [])
    ≡ update_config
        (some (codes "# c\n"))
        (codes "default")
        ((codes "foo", scalar (codes "2")) ∷ [])
unfolding readlines is_header rstrip ends_with update_config contains
update_config-twice_example =
    update_config-twice (codes "# c\n") (codes "default") b'f' (codes "oo") (codes "1") (codes "2")
      (codes "# c\n[default]\nfoo = 1\n") (inr refl) (refl, tt)
      (
        (λ e. cc),
        Free-contains b']' (codes "default") refl,
        Free-contains b'\n' (codes "default") refl,
      )
      (refl, refl, (refl, (refl, (refl, tt))), Free-contains b'\n' (codes "foo") refl)
      (Free-contains b'\n' (codes "1") refl) refl

run_main-scopes_example :
    let other = some (codes "other") in
    (run_main other (codes "profile.p.region") (codes "r")
      ≡ run_main (some (codes "p")) (codes "region") (codes "r"))
    × (run_main other (codes "default.region") (codes "r")
        ≡ run_main none (codes "region") (codes "r"))
    × (run_main other (codes "profile.p.region.sub") (codes "r")
        ≡ some (
            choose_file
              (codes "profile p")
              (codes "region")
              (nested ((codes "sub", codes "r") ∷ []))))
unfolding contains
run_main-scopes_example =
    run_main-scopes (some (codes "other")) (codes "p") (codes "region") (codes "sub") (codes "r")
      (Free-contains b'.' (codes "p") refl) (Free-contains b'.' (codes "region") refl)
      (Free-contains b'.' (codes "sub") refl)
