-- ===== src/Executor/Tests.antt =====
-- src/executor.ts: a build whose generator writes a snapshot, and one that takes it from the cache.
use ad4m_link_language_tests.Executor
use ad4m_link_language_tests.Executor.Snapshots.{
  KeepsSnapshots, IsPlaced, revision_in, built_from-IsPlaced,
}
use ad4m_link_language_tests.Prelude.Outcome.{Outcome, returned, returned_inj}
use ad4m_link_language_tests.Prelude.{
  Text, str, none, some, [], ◌===◌, ◌≡◌, ◌≢◌, refl, sym, ap, if◌then◌else◌,
}

abbrev config : Executor.ExecutorConfig
config = record {
  branch = str "main";
  port = 12000;
  data_path = str "/d";
  admin_token = str "t";
  adam_repo_path = str "/r";
  build_dir = str "/b";
  extra_args = none;
}

-- The build writes the binary, and the generator the snapshot beside the executor's sources.
exec : Executor.Command → Executor.Files → Outcome Executor.Files
exec (Executor.clone branch repo dir) fs = returned fs
exec (Executor.generate_snapshot dir) fs =
    returned (Executor.write (str "/b/rust-executor/CUSTOM_DENO_SNAPSHOT.bin") (str "V8") fs)
exec (Executor.build_binary dir) fs =
    returned (Executor.write (str "/b/target/release/ad4m-executor") (str "ELF") fs)
exec (Executor.init binary dir) fs = returned fs

abbrev world : Executor.World
world = record { exec = exec; revision = λ lock. some lock; cache_home = str "/c" }

-- The clone has a `Cargo.lock`, of which the revision is taken.
cloned : Executor.Files
unfolding ◌===◌
cloned q = if q === str "/b/Cargo.lock" then some (str "abc") else none

-- The build writes none of the three files of a snapshot.
world-KeepsSnapshots :
    KeepsSnapshots world
      (str "/b")
      (Executor.paths_of world (str "/b") (revision_in world config cloned))
unfolding KeepsSnapshots exec Executor.write Executor.paths_of revision_in
    Executor.deno_runtime_revision Executor.with_page cloned ◌===◌
world-KeepsSnapshots fs fs' h =
    let same =
      returned_inj (Executor.write (str "/b/target/release/ad4m-executor") (str "ELF") fs) fs' h in
    (
      sym (ap (λ f. f (str "/b/CUSTOM_DENO_SNAPSHOT.bin")) same),
      sym (ap (λ f. f (str "/b/rust-executor/CUSTOM_DENO_SNAPSHOT.bin")) same),
      sym (ap (λ f. f (str "/c/ad4m-wind-tunnel/deno-snapshots/abc.bin")) same),
    )

abbrev built : Executor.Files
built =
    let root = str "/b/CUSTOM_DENO_SNAPSHOT.bin" in
    let rust = str "/b/rust-executor/CUSTOM_DENO_SNAPSHOT.bin" in
    let cache = str "/c/ad4m-wind-tunnel/deno-snapshots/abc.bin" in
    Executor.write (str "/b/target/release/ad4m-executor") (str "ELF") (
      Executor.write cache (str "V8") (
        Executor.write root (str "V8") (
          Executor.write rust (str "V8") (
            Executor.write rust []
              (Executor.write root [] (Executor.with_page (str "/b") cloned))))))

cloned-built :
    Executor.built_from world config cloned
    ≡ returned (str "/b/target/release/ad4m-executor", built)
unfolding Executor.built_from Executor.write Executor.with_page cloned exec ◌===◌
cloned-built = refl

built_from-IsPlaced_example :
    (str "/b/target/release/ad4m-executor" ≡ Executor.binary_path (str "/b"))
    × (built (str "/b/target/release/ad4m-executor") ≢ none)
    × ((s : Text) × IsPlaced
          (Executor.paths_of world (str "/b") (revision_in world config cloned))
          s
          built)
built_from-IsPlaced_example =
    built_from-IsPlaced world config cloned (str "/b/target/release/ad4m-executor") built
      world-KeepsSnapshots cloned-built
