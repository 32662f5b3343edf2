-- ===== src/S3/Command/Accepted.antt =====
-- What `CommandParameters.add_paths` accepts.
use m_awsexp.Common.{◌≡◌, Bool, List, false, ◌⊎◌, Str, arith, refl, true, some}
use m_awsexp.S3.Command.{
  validate_streaming_paths, Checked, check_path_type, PathsType, CommandParameters, Command,
  accepted, ◌>>=◌, refused, is_allowed, operation_name, cp, sync, paths_type_of, mv, rm, mb, rb,
  s3s3, add_paths, only_s3, s3local, locals3, same_path, initial_parameters, validate_path_args,
}
use m_awsexp.S3.FileStat.{Operation}

>>=-eq-accepted {ℓ κ} :
    {A : Type ℓ} {B : Type κ} (m : Checked A) (f : A → Checked B) {b : B}
    → m >>= f ≡ accepted b
    → (a : A) × (m ≡ accepted a) × (f a ≡ accepted b)
>>=-eq-accepted (accepted a) f h = (a, refl, h)
>>=-eq-accepted (refused r) f h = cc

pub check_path_type-is_allowed :
    (cmd : Command) (paths : List Str) (t : PathsType)
    → check_path_type cmd paths ≡ accepted t
    → is_allowed t cmd ≡ true
unfolding check_path_type
check_path_type-is_allowed cmd paths t h =
    let (u, e, k) = >>=-eq-accepted (paths_type_of paths) _ h in ground arith

-- What validation keeps of the parameters: only a `cp` is a stream, and turned from a directory.
abbrev pub Keeps : CommandParameters → CommandParameters → Type 0
Keeps p q =
    (q.cmd ≡ p.cmd)
    × (q.paths_type ≡ p.paths_type)
    × (q.src ≡ p.src)
    × (q.dest ≡ p.dest)
    × ((q.dir_op ≡ p.dir_op) ⊎ (p.cmd ≡ cp))
    × ((q.is_stream ≡ false) ⊎ (p.cmd ≡ cp))

validate_streaming_paths-Keeps :
    (p : CommandParameters) (c : Command) (q : CommandParameters)
    → p.cmd ≡ c
    → validate_streaming_paths p ≡ accepted q
    → Keeps p q
unfolding validate_streaming_paths
validate_streaming_paths-Keeps p cp q e h = ground arith
validate_streaming_paths-Keeps p sync q e h = ground arith
validate_streaming_paths-Keeps p mv q e h = ground arith
validate_streaming_paths-Keeps p rm q e h = ground arith
validate_streaming_paths-Keeps p mb q e h = ground arith
validate_streaming_paths-Keeps p rb q e h = ground arith

pub operations :
    (t : PathsType) (cmd : Command)
    → is_allowed t cmd ≡ true
    → (o : Operation) × (operation_name t cmd ≡ some o)
unfolding is_allowed operation_name
operations s3s3 cp h = (_, refl)
operations s3s3 sync h = (_, refl)
operations s3s3 mv h = (_, refl)
operations s3local cp h = (_, refl)
operations s3local sync h = (_, refl)
operations s3local mv h = (_, refl)
operations locals3 cp h = (_, refl)
operations locals3 sync h = (_, refl)
operations locals3 mv h = (_, refl)
operations only_s3 mb h = (_, refl)
operations only_s3 rb h = (_, refl)
operations only_s3 rm h = (_, refl)
operations _ _ h = absurd (ground arith)

validate_path_args-inversion :
    (path_join : Str → Str → Str) (basename : Str → Str) (p : CommandParameters) (c : Command)
    (q : CommandParameters)
    → p.cmd ≡ c
    → validate_path_args path_join basename p ≡ accepted q
    → (q ≡ p) × (c ≡ mv → same_path path_join basename q.paths_type q.src q.dest ≡ false)
unfolding validate_path_args
validate_path_args-inversion path_join basename p mv q e h = ground arith
validate_path_args-inversion path_join basename p cp q e h = ground arith
validate_path_args-inversion path_join basename p sync q e h = ground arith
validate_path_args-inversion path_join basename p rm q e h = ground arith
validate_path_args-inversion path_join basename p mb q e h = ground arith
validate_path_args-inversion path_join basename p rb q e h = ground arith

-- What add_paths has accepted.
pub add_paths-inversion :
    (path_join : Str → Str → Str) (basename : Str → Str) (cmd : Command) (dir_op quiet : Bool)
    (paths : List Str) (p : CommandParameters)
    → add_paths path_join basename cmd dir_op quiet paths ≡ accepted p
    → (t : PathsType) × (check_path_type cmd paths ≡ accepted t)
      × Keeps (initial_parameters cmd dir_op quiet paths t) p
      × (cmd ≡ mv → same_path path_join basename p.paths_type p.src p.dest ≡ false)
unfolding add_paths
add_paths-inversion path_join basename cmd dir_op quiet paths p h =
    let (t, checked, rest) = >>=-eq-accepted (check_path_type cmd paths) _ h in
    let start = initial_parameters cmd dir_op quiet paths t in
    let (q, streamed, last) = >>=-eq-accepted (validate_streaming_paths start) _ rest in
    let kept = validate_streaming_paths-Keeps start cmd q refl streamed in
    let (same, apart) = validate_path_args-inversion path_join basename q cmd p kept.0 last in
    (t, checked, rw same kept, apart)
