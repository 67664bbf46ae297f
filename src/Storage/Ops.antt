-- ===== src/Storage/Ops.antt =====
-- The methods of `StorageManager`. A call returns the new state beside its result, since what it
-- wrote before an error stays written. `now` is the clock in seconds. Sums of `u64` wrap.
use shadowmesh.Base.{
  ℕ, ◌+◌, ◌-◌, ◌%◌, Bool, true, false, Option, none, some, List, [], ◌∷◌, ltb, Str, bytes,
  if◌then◌else◌, length, map, str_eq,
}
use shadowmesh.Base.Map
use shadowmesh.Base.Map.{Map, size, total}
use shadowmesh.Storage.Types.{
  u64_mod, StoredFragment, StoredContent, StorageManager, insufficient_space, not_found, pinned, io,
  Outcome, ok, err, panics, FilePath, Disk, fragment_path,
}

-- How `load_metadata` finds `metadata/index.json`.
pub data IndexFile : Type 0 where
  missing unreadable garbled : IndexFile
  parsed : Map Str StoredFragment → Map Str StoredContent → IndexFile

abbrev pub fragment_size : StoredFragment → ℕ
fragment_size f = f.size

abbrev pub one_if_pinned : StoredContent → ℕ
one_if_pinned c = if c.pinned then 1 else 0

-- `content.values().filter(|c| c.pinned).count()`
abbrev pub count_pinned : Map Str StoredContent → ℕ
count_pinned m = total one_if_pinned m

abbrev pub empty_manager : Str → ℕ → StorageManager
empty_manager data_dir max_capacity = record {
  data_dir = data_dir;
  max_capacity = max_capacity;
  fragments = [];
  content = [];
  current_usage = 0;
  stats = record {
    total_bytes = 0;
    fragment_count = 0;
    content_count = 0;
    pinned_count = 0;
    capacity_bytes = max_capacity;
    last_gc = none;
  };
}

unfoldable pub loaded :
    Map Str StoredFragment → Map Str StoredContent → StorageManager → StorageManager
loaded frags cont m =
    let usage = total fragment_size frags % u64_mod in
    let s = m.stats in
    record m {
      fragments = frags;
      content = cont;
      current_usage = usage;
      stats = record s {
        total_bytes = usage;
        fragment_count = size frags;
        content_count = size cont;
        pinned_count = count_pinned cont;
      };
    }

unfoldable pub load_metadata : IndexFile → StorageManager → StorageManager × Outcome (Unit {0})
load_metadata missing m = (m, ok tt)
load_metadata unreadable m = (m, err io)
load_metadata garbled m = (m, ok tt)
load_metadata (parsed frags cont) m = (loaded frags cont m, ok tt)

abbrev pub directories : Str → List FilePath
directories data_dir =
    (data_dir ∷ []) ∷ (data_dir ∷ bytes "fragments" ∷ []) ∷ (data_dir ∷ bytes "metadata" ∷ []) ∷ []

create_all : Disk → List FilePath → Bool
create_all disk [] = true
create_all disk (p ∷ ps) = if disk.create_dir_all p then create_all disk ps else false

unfoldable pub new : Disk → IndexFile → Str → ℕ → Outcome StorageManager
unfolding create_all load_metadata
new disk index data_dir max_capacity =
    if create_all disk (directories data_dir)
    then (let (m, r) = load_metadata index (empty_manager data_dir max_capacity) in
        elim r [ ok u ↦ ok m | err e ↦ err e | panics ↦ panics ])
    else err io

-- The result of a call that ends with `self.save_metadata().await?`.
abbrev pub saved : Disk → StorageManager → StorageManager × Outcome (Unit {0})
saved disk m = (m, if disk.save_metadata then ok tt else err io)

abbrev pub fresh_fragment : ℕ → Str → Str → ℕ → ℕ → StoredFragment
fresh_fragment now hash cid index size = record {
  hash = hash;
  cid = cid;
  index = index;
  size = size;
  stored_at = now;
  last_accessed = now;
  access_count = 0;
  pinned = false;
}

-- What `store_fragment` does to the metadata once the file is written.
unfoldable pub add_fragment : StorageManager → StoredFragment → StorageManager
add_fragment m f =
    let s = m.stats in
    record m {
      fragments = Map.insert f.hash f m.fragments;
      current_usage = (m.current_usage + f.size) % u64_mod;
      stats = record s {
        total_bytes = (s.total_bytes + f.size) % u64_mod;
        fragment_count = (s.fragment_count + 1) % u64_mod;
      };
    }

abbrev pub parent : FilePath → FilePath
parent [] = []
parent (c ∷ []) = []
parent (c ∷ d ∷ ds) = c ∷ parent (d ∷ ds)

-- `create_dir_all(parent)`, then `write`.
abbrev pub written : Disk → FilePath → Str → Bool
written disk path content =
    if disk.create_dir_all (parent path) then disk.write path content else false

store_at :
    Disk
    → StorageManager
    → StoredFragment
    → Str
    → Outcome FilePath
    → StorageManager × Outcome (Unit {0})
store_at disk m f content (ok path) =
    if written disk path content then saved disk (add_fragment m f) else (m, err io)
store_at disk m f content (err e) = (m, err e)
store_at disk m f content panics = (m, panics)

unfoldable pub store_fragment :
    Disk → ℕ → StorageManager → Str → Str → ℕ → Str → StorageManager × Outcome (Unit {0})
unfolding store_at
store_fragment disk now m hash cid index content =
    let size = length content in
    if ltb m.max_capacity ((m.current_usage + size) % u64_mod)
    then (m, err (insufficient_space size (m.max_capacity - m.current_usage)))
    else store_at disk m (fresh_fragment now hash cid index size) content
        (fragment_path m.data_dir hash)

abbrev pub touch : ℕ → StoredFragment → StoredFragment
touch now f = record f { last_accessed = now; access_count = (f.access_count + 1) % u64_mod }

abbrev pub touched : ℕ → Str → StorageManager → StorageManager
touched now hash m = record m { fragments = Map.adjust hash (touch now) m.fragments }

get_read : ℕ → Str → StorageManager → Option Str → StorageManager × Outcome Str
get_read now hash m none = (m, err io)
get_read now hash m (some content) = (touched now hash m, ok content)

get_at : Disk → ℕ → Str → StorageManager → Outcome FilePath → StorageManager × Outcome Str
unfolding get_read
get_at disk now hash m (ok path) = get_read now hash m (disk.read path)
get_at disk now hash m (err e) = (m, err e)
get_at disk now hash m panics = (m, panics)

unfoldable pub get_fragment : Disk → ℕ → StorageManager → Str → StorageManager × Outcome Str
unfolding get_at
get_fragment disk now m hash =
    if Map.contains_key hash m.fragments
    then get_at disk now hash m (fragment_path m.data_dir hash)
    else (m, err (not_found hash))

-- The access is counted before the path is looked at.
unfoldable pub get_fragment_path : ℕ → StorageManager → Str → StorageManager × Outcome FilePath
get_fragment_path now m hash =
    if Map.contains_key hash m.fragments
    then (touched now hash m, fragment_path m.data_dir hash)
    else (m, err (not_found hash))

unfoldable pub has_fragment : StorageManager → Str → Bool
has_fragment m hash = Map.contains_key hash m.fragments

unfoldable pub store_content :
    Disk → StorageManager → StoredContent → StorageManager × Outcome (Unit {0})
store_content disk m c =
    let content = Map.insert c.cid c m.content in
    let s = m.stats in
    saved disk (record m { content = content; stats = record s { content_count = size content } })

unfoldable pub get_content : StorageManager → Str → Option StoredContent
get_content m cid = Map.get cid m.content

unfoldable pub list_content : StorageManager → List StoredContent
list_content m = map (λ e. e.1) m.content

abbrev pub set_pinned : Bool → StoredFragment → StoredFragment
set_pinned b f = record f { pinned = b }

abbrev pub mark_pinned : Bool → StoredContent → StoredContent
mark_pinned b c = record c { pinned = b }

-- The loop over the fragments of a content.
unfoldable pub pin_fragments : Bool → List Str → Map Str StoredFragment → Map Str StoredFragment
pin_fragments b [] frags = frags
pin_fragments b (h ∷ hs) frags = pin_fragments b hs (Map.adjust h (set_pinned b) frags)

unfoldable pub set_pin : Bool → StorageManager → Str → StoredContent → StorageManager
set_pin b m cid c =
    let content = Map.adjust cid (mark_pinned b) m.content in
    let s = m.stats in
    record m {
      content = content;
      fragments = pin_fragments b c.fragments m.fragments;
      stats = record s { pinned_count = count_pinned content };
    }

pin_as :
    Disk → Bool → StorageManager → Str → Option StoredContent → StorageManager × Outcome (Unit {0})
pin_as disk b m cid none = (m, err (not_found cid))
pin_as disk b m cid (some c) = saved disk (set_pin b m cid c)

unfoldable pub pin : Disk → StorageManager → Str → StorageManager × Outcome (Unit {0})
unfolding pin_as
pin disk m cid = pin_as disk true m cid (Map.get cid m.content)

unfoldable pub unpin : Disk → StorageManager → Str → StorageManager × Outcome (Unit {0})
unfolding pin_as
unpin disk m cid = pin_as disk false m cid (Map.get cid m.content)

-- What `delete_fragment` does to the metadata once the file is gone.
unfoldable pub drop_fragment : StorageManager → Str → StorageManager
drop_fragment m hash =
    let s = m.stats in
    let size = Map.measure fragment_size (Map.get hash m.fragments) in
    record m {
      fragments = Map.remove hash m.fragments;
      current_usage = m.current_usage - size;
      stats = record s {
        total_bytes = s.total_bytes - size;
        fragment_count = s.fragment_count - 1;
      };
    }

abbrev pub unlinked : Disk → FilePath → Bool
unlinked disk path = if disk.exists path then disk.remove_file path else true

delete_at : Disk → StorageManager → Str → Outcome FilePath → StorageManager × Outcome (Unit {0})
delete_at disk m hash (ok path) =
    if unlinked disk path then (drop_fragment m hash, ok tt) else (m, err io)
delete_at disk m hash (err e) = (m, err e)
delete_at disk m hash panics = (m, panics)

unfoldable pub delete_fragment : Disk → StorageManager → Str → StorageManager × Outcome (Unit {0})
unfolding delete_at
delete_fragment disk m hash = delete_at disk m hash (fragment_path m.data_dir hash)

-- `let _ = self.delete_fragment(hash).await` for each hash: an error is dropped, a panic is not.
after_fragment :
    StorageManager × Outcome (Unit {0})
    → (StorageManager → StorageManager × Outcome (Unit {0}))
    → StorageManager × Outcome (Unit {0})
after_fragment (m, panics) rest = (m, panics)
after_fragment (m, ok u) rest = rest m
after_fragment (m, err e) rest = rest m

unfoldable pub delete_fragments :
    Disk → List Str → StorageManager → StorageManager × Outcome (Unit {0})
unfolding after_fragment
delete_fragments disk [] m = (m, ok tt)
delete_fragments disk (h ∷ hs) m =
    after_fragment (delete_fragment disk m h) (delete_fragments disk hs)

-- What `delete` does to the metadata once the fragments are gone.
unfoldable pub drop_content : StorageManager → Str → StorageManager
drop_content m cid =
    let content = Map.remove cid m.content in
    let s = m.stats in
    record m { content = content; stats = record s { content_count = size content } }

delete_rest : Disk → Str → StorageManager × Outcome (Unit {0}) → StorageManager × Outcome (Unit {0})
delete_rest disk cid (m, panics) = (m, panics)
delete_rest disk cid (m, ok u) = saved disk (drop_content m cid)
delete_rest disk cid (m, err e) = saved disk (drop_content m cid)

delete_as : Disk → StorageManager → Str → Option StoredContent → StorageManager × Outcome (Unit {0})
unfolding delete_rest
delete_as disk m cid none = (m, err (not_found cid))
delete_as disk m cid (some c) =
    if c.pinned
    then (m, err (pinned cid))
    else delete_rest disk cid (delete_fragments disk c.fragments m)

unfoldable pub delete : Disk → StorageManager → Str → StorageManager × Outcome (Unit {0})
unfolding delete_as
delete disk m cid = delete_as disk m cid (Map.get cid m.content)
