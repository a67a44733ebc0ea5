-- ===== src/Palette/Defs.antt =====
-- The pages, the search over them, and the recent searches with their storage.
use vault_vk.Common.{
  ℕ, Bool, false, not, ◌||◌, List, [], ◌∷◌, map, ◌==◌, filter, take, if◌then◌else◌,
}
use vault_vk.Text.{Text, codes, contains, to_lower}
use vault_vk.Text.Trim.{is_nil, trim}

pub data TabId : Type 0 where
  dashboard explorer raft architecture : TabId

abbrev pub tab_code : TabId → ℕ
tab_code dashboard = 0
tab_code explorer = 1
tab_code raft = 2
tab_code architecture = 3

-- `a === b` on page ids.
abbrev pub same_tab : TabId → TabId → Bool
same_tab a b = tab_code a == tab_code b

-- An entry of the recent searches.
pub record Recent : Type 0 where
  pub id : TabId
  pub label : Text

pub record SearchItem : Type 0 where
  pub id : TabId
  pub label : Text
  pub subtitle : Text

abbrev label_of : TabId → Text
label_of dashboard = codes "Overview"
label_of explorer = codes "Explorer"
label_of raft = codes "Consensus"
label_of architecture = codes "Architecture"

abbrev subtitle_of : TabId → Text
subtitle_of dashboard = codes "Live cluster telemetry and throughput"
subtitle_of explorer = codes "Run GET / SET / DEL / SCAN commands"
subtitle_of raft = codes "Node failover and leader elections"
subtitle_of architecture = codes "Visual architecture and trace runner"

abbrev search_item : TabId → SearchItem
search_item id = record { id = id; label = label_of id; subtitle = subtitle_of id }

unfoldable pub search_items : List SearchItem
search_items = map search_item (dashboard ∷ explorer ∷ raft ∷ architecture ∷ [])

-- `filteredSearchItems`
unfoldable pub filtered_search_items : Text → List SearchItem
unfolding search_items
filtered_search_items search_query =
    let q = to_lower (trim search_query) in
    if is_nil q
    then []
    else filter (λ it. contains q (to_lower it.label) || contains q (to_lower it.subtitle))
        search_items

-- What the browser's storage has under `observe_recent_searches`: nothing (or an empty text), a text
-- that does not parse, an array, or some other value.
pub data Stored : Type 0 where
  absent malformed not_array : Stored
  array : List Recent → Stored

unfoldable pub load_recent : Stored → List Recent
load_recent absent =
    record { id = dashboard; label = codes "Overview" }
    ∷ record { id = explorer; label = codes "Explorer" }
    ∷ record { id = raft; label = codes "Consensus" }
    ∷ []
load_recent malformed = []
load_recent not_array = []
load_recent (array parsed) = take 6 parsed

-- The state of `App` that the palette turns on, with the storage.
pub record Palette : Type 0 where
  pub tab : TabId
  pub search_open : Bool
  pub search_query : Text
  pub search_active_index : ℕ
  pub recent_searches : List Recent
  pub notifications_open : Bool
  pub stored : Stored

unfoldable pub opening : Stored → Palette
opening stored = record {
  tab = dashboard;
  search_open = false;
  search_query = [];
  search_active_index = 0;
  recent_searches = load_recent stored;
  notifications_open = false;
  stored = stored;
}

unfoldable pub close_search : Palette → Palette
close_search p = record p { search_open = false; search_query = []; search_active_index = 0 }

-- `[{ id, label }, ...recentSearches.filter((x) => x.id !== id)].slice(0, 6)`
unfoldable pub updated_recent : TabId → Text → List Recent → List Recent
updated_recent id label recent =
    take 6 (record { id = id; label = label } ∷ filter (λ x. not (same_tab x.id id)) recent)

unfoldable pub select_search_item : TabId → Text → Palette → Palette
unfolding close_search
select_search_item id label p =
    let updated = updated_recent id label p.recent_searches in
    close_search (record p { tab = id; recent_searches = updated; stored = array updated })
