-- ===== src/Tests/Host.antt =====
-- A file system of a few files, for the tests of internal/artifact/registry.go: paths are clean, and no
-- file is a link.
use Prim.Native.String.{◌++◌}
use r.Prelude.{
  ℕ, zero, suc, String, ◌≡◌, refl, ap, true, false, Option, none, some, List, [], ◌∷◌,
  if◌then◌else◌,
}
use r.Prelude.Text.{is_empty, cut_prefix, has_prefix}
use r.Prelude.Maps.{get, put, delete}
use r.Artifact.{new_registry}
use r.Artifact.Register.{Session}
use r.Artifact.Paths.{Host, Info, Visit, visited, regular}

abbrev pub unary : ℕ → String
unary zero = ""
unary (suc n) = String.◌∷◌ "a" (unary n)

pub unary_injective : (m n : ℕ) → unary m ≡ unary n → m ≡ n
unary_injective zero zero q = refl
unary_injective zero (suc n) q = cc
unary_injective (suc m) zero q = cc
unary_injective (suc m) (suc n) q = ap (λ (k : ℕ). suc k) (unary_injective m n (cc))

abbrev pub Files : Type 0
Files = List (String × String)

abbrev info : Option String → Option Info
info none = none
info (some c) = some (record { is_dir = false; size = if is_empty c then 0 else 1 })

abbrev below : Files → String → List Visit
below [] p = []
below ((q, _) ∷ w) p = if has_prefix (p ++ "/") q then visited q regular ∷ below w p else below w p

abbrev pub host : Host
host = record {
  Files = Files;
  windows = false;
  separator = "/";
  lower = λ s. s;
  clean = λ s. s;
  join = λ a b. a ++ "/" ++ b;
  is_absolute = λ p. has_prefix "/" p;
  absolute = λ p. some p;
  relative = λ root p. cut_prefix (root ++ "/") p;
  to_slash = λ p. p;
  eval_symlinks = λ w p. some p;
  stat = λ w p. info (get p w);
  read_file = λ w p. get p w;
  write_file = λ p c w. (put p c w, true);
  make_directory = λ p w. (w, true);
  create_temporary = λ p w. (w, some (p ++ "/tool-1.md"));
  write_temporary = λ p c w. (put p c w, true);
  close_temporary = λ p w. (w, true);
  remove = λ p w. delete p w;
  walk = λ w p. below w p;
  new_uuid = unary;
  new_uuid_injective = unary_injective;
}

abbrev pub files : Files
files = ("/w/a.md", "hello") ∷ ("/w/d/b.md", "there") ∷ []

abbrev pub empty_session : Session host
empty_session = record { registry = new_registry; files = files; issued = 0 }
