-- ===== src/Executor.antt =====
-- src/executor.ts: building, starting and stopping an executor. Files are a function of their paths;
-- git, cargo and the executor are a `World`. Paths are joined by `/`, and console output is left out.
mod Snapshots
mod Process
mod Tests
use ad4m_link_language_tests.Prelude.Outcome.{Outcome, returned, threw, ◌>>=◌}
use ad4m_link_language_tests.Prelude.{
  Text, str, ℕ, Bool, true, false, Option, none, some, List, [], ◌∷◌, ◌++◌, ◌===◌, ◌||◌,
  starts_with, if◌then◌else◌,
}

abbrev pub Files : Type 0
Files = Text → Option Text

pub record ExecutorConfig : Type 0 where
  pub branch : Text
  pub port : ℕ
  pub data_path : Text
  pub admin_token : Text
  pub adam_repo_path : Text
  pub build_dir : Text
  pub extra_args : Option (List Text)

pub data Command : Type 0 where
  clone : Text → Text → Text → Command
  generate_snapshot build_binary : Text → Command
  init : Text → Text → Command

-- What a command makes of the files, the revision that the pattern finds in a `Cargo.lock`, and
-- `$XDG_CACHE_HOME`, or the `.cache` of the home directory.
pub record World : Type 0 where
  pub exec : Command → Files → Outcome Files
  pub revision : Text → Option Text
  pub cache_home : Text

infixr 60 ◌/◌
◌/◌ : Text → Text → Text
a / b = a ++ (b'/' ∷ b)

unfoldable pub write : Text → Text → Files → Files
unfolding ◌===◌
write p content fs q = if q === p then some content else fs q

-- `rmSync` of a directory.
remove_tree : Text → Files → Files
unfolding ◌===◌ starts_with
remove_tree dir fs q = if (q === dir) || starts_with q (dir ++ str "/") then none else fs q

copied : Text → Text → Files → Option Text → Outcome Files
copied p q fs none = threw (str "ENOENT: no such file or directory, copyfile '" ++ (p ++ str "'"))
copied p q fs (some content) = returned (write q content fs)

-- `copyFileSync`
unfoldable pub copy : Text → Text → Files → Outcome Files
unfolding copied
copy p q fs = copied p q fs (fs p)

write_missing : Text → Text → Files → Option Text → Files
unfolding write
write_missing p content fs none = write p content fs
write_missing p content fs (some _) = fs

copy_existing : Text → Text → Files → Option Text → Files
unfolding write
copy_existing p q fs none = fs
copy_existing p q fs (some content) = write q content fs

snapshot_cache_dir : World → Text
unfolding ◌/◌
snapshot_cache_dir w = w.cache_home / str "ad4m-wind-tunnel" / str "deno-snapshots"

found_revision : World → Option Text → Option Text
found_revision w none = none
found_revision w (some lock) = w.revision lock

-- `denoRuntimeRevision`
unfoldable pub deno_runtime_revision : World → Text → Files → Option Text
unfolding found_revision ◌/◌
deno_runtime_revision w dir fs = found_revision w (fs (dir / str "Cargo.lock"))

-- Where the snapshot stands: twice in the build, and in the cache if the revision is known.
pub record Paths : Type 0 where
  pub root : Text
  pub rust : Text
  pub cache : Option Text

cache_path : World → Option Text → Option Text
unfolding snapshot_cache_dir ◌/◌
cache_path w none = none
cache_path w (some []) = none
cache_path w (some (c ∷ rev)) = some (snapshot_cache_dir w / ((c ∷ rev) ++ str ".bin"))

unfoldable pub paths_of : World → Text → Option Text → Paths
unfolding cache_path ◌/◌
paths_of w dir rev = record {
  root = dir / str "CUSTOM_DENO_SNAPSHOT.bin";
  rust = dir / str "rust-executor" / str "CUSTOM_DENO_SNAPSHOT.bin";
  cache = cache_path w rev;
}

cache_it : Text → Option Text → Files → Outcome Files
unfolding copy
cache_it rust none fs = returned fs
cache_it rust (some cache) fs = copy rust cache fs

-- The stubs, the generator, and the copies of what it wrote.
generated : World → Text → Paths → Files → Outcome Files
unfolding cache_it copy write ◌>>=◌
generated w dir p fs =
    w.exec (generate_snapshot dir) (write p.rust [] (write p.root [] fs))
    >>= (λ fs. copy p.rust p.root fs >>= cache_it p.rust p.cache)

-- `snapshotIsValid(cachePath)`: a file that is not empty.
from_cache : World → Text → Paths → Text → Files → Option Text → Outcome Files
unfolding generated copy ◌>>=◌
from_cache w dir p cache fs none = generated w dir p fs
from_cache w dir p cache fs (some []) = generated w dir p fs
from_cache w dir p cache fs (some (c ∷ cs)) = copy cache p.root fs >>= copy cache p.rust

unfoldable pub place_snapshots : World → Text → Paths → Option Text → Files → Outcome Files
unfolding from_cache generated
place_snapshots w dir p none fs = generated w dir p fs
place_snapshots w dir p (some cache) fs = from_cache w dir p cache fs (fs cache)

-- The placeholder page and the schema.
unfoldable pub with_page : Text → Files → Files
unfolding write_missing ◌/◌
with_page dir fs =
    let page = dir / str "dapp" / str "dist" / str "index.html" in
    write_missing page (str "<!DOCTYPE html><html><body></body></html>") fs (fs page)

with_schema : Text → Text → Files → Files
unfolding copy_existing ◌/◌
with_schema repo dir fs =
    let schema = str "core" / str "lib" / str "src" / str "schema.gql" in
    copy_existing (repo / schema) (dir / schema) fs (fs (repo / schema))

unfoldable pub binary_path : Text → Text
unfolding ◌/◌
binary_path dir = dir / str "target" / str "release" / str "ad4m-executor"

found_binary : Text → Files → Option Text → Outcome (Text × Files)
found_binary path fs none = threw (str "Binary not found at " ++ path)
found_binary path fs (some _) = returned (path, fs)

-- From the clone of the repository on.
unfoldable pub built_from : World → ExecutorConfig → Files → Outcome (Text × Files)
unfolding with_page with_schema paths_of place_snapshots deno_runtime_revision found_binary
    binary_path ◌>>=◌
built_from w c cloned =
    let dir = c.build_dir in
    let paged = with_page dir cloned in
    let p = paths_of w dir (deno_runtime_revision w dir paged) in
    place_snapshots w dir p p.cache (with_schema c.adam_repo_path dir paged) >>= (λ fs.
      w.exec (build_binary dir) fs
      >>= (λ fs. found_binary (binary_path dir) fs (fs (binary_path dir))))

-- `buildExecutor`
unfoldable pub build_executor : World → ExecutorConfig → Files → Outcome (Text × Files)
unfolding built_from remove_tree ◌>>=◌
build_executor w c fs =
    w.exec (clone c.branch c.adam_repo_path c.build_dir) (remove_tree c.build_dir fs)
    >>= built_from w c

-- `initExecutor`
unfoldable pub init_executor : World → Text → Text → Files → Outcome Files
unfolding remove_tree
init_executor w binary data_path fs = w.exec (init binary data_path) (remove_tree data_path fs)
