-- ===== src/Lib.antt =====
-- vaultVK, a replicated key-value store with an operator console: the console in TypeScript under
-- frontend/src, the wire protocol between the gateway and the server, and the storage engine in C++
-- under src, modelled as functions on explicit state, with the theorems that make them correct.
--
-- The program. The console shows a cluster of servers. A hook keeps a web socket and a poll
-- open to the gateway (frontend/src/hooks.ts) and hands each snapshot to a store
-- (frontend/src/store.ts); the pages of frontend/src/App.tsx read that store, announce what changes,
-- send commands to the gateway, and trace one request through its stages. The pages under
-- frontend/src/pages have a hook and two stores of their own (frontend/src/hooks/useClusterWS.ts,
-- frontend/src/store); frontend/src/main.tsx mounts App.tsx, which imports none of them. All addresses
-- come from frontend/src/lib/runtimeConfig.ts. The gateway (gateway/cluster.py) sends each command as a
-- frame (gateway/tlv_client.py); a server (src/server.cpp) takes frames off its connections
-- (src/protocol.cpp) and hands them to its engine (src/storage_engine.cpp), which keeps a log
-- (src/wal.cpp), a table in memory (src/memtable.cpp) and tables on disk in two levels
-- (src/sstable.cpp, src/compaction.cpp), and replicates each update (src/replication.cpp).
--
-- The files.
--   Common, Text, Numbers: shared helpers. Text has texts as UTF-16 code units and the methods of
--     `String` that the code calls; Numbers has the interface for numbers that are not whole.
--   RuntimeConfig: lib/runtimeConfig.ts. `trim_trailing_slash`, `api_base`, `api_url`, `ws_url` and
--     the others are its functions under the same names; the build variables, the page's location
--     and the URL parser are arguments.
--   Store: store.ts. Store/Defs has the state and the actions that do not wait, Store/Actions has
--     `killNode` and `restartNode` (`begin_kill`, `begin_restart` before the wait, `settle` after it),
--     Store/EventLoop interleaves them with snapshots, samples and each other; Forced below it has the
--     forced list as a set, Sticks a killed node under later snapshots.
--   Metrics: `consumeSnapshot` of hooks.ts (Metrics/Consume), `ingest` of hooks/useClusterWS.ts with
--     store/clusterStore.ts and store/metricsStore.ts (Metrics/Ingest).
--   Feed: the effect of `useSimulatedMetrics` in hooks.ts as a machine: its handlers, its two timers
--     and its clean-up, driven by the events that a browser can raise (`step`, `Reach`).
--   Quorum, Notifications: the effects of `App` in App.tsx that compare a render with the one before,
--     and the list of notifications. Notifications/Fair and App/Announced have what a render may announce.
--   Requests: the request of each operation in pages/Explorer.tsx, with `encodeURIComponent` and
--     an inverse of it. Requests/Received reads a target the way URLs are read: fragment, query,
--     dot segments, decoding.
--   Explorers: `execute` with its fields and rows, of pages/Explorer.tsx (Explorers/Page) and of
--     `ExplorerView` in App.tsx (Explorers/View); calls overlap. Explorers/Table is
--     components/KeyTable.tsx.
--   PagesFeed: the effect of hooks/useClusterWS.ts as a machine, like Feed.
--   Failover: `killNode` and `restartNode` of pages/Raft.tsx, and the interval that waits for an
--     election (`on_polled` is its callback after the reply; Failover/Rounds has polls that come back
--     one at a time). Failover/Page has the page, with any number of calls and watches at once.
--   App: `App` in App.tsx as a whole: Feed, Store/EventLoop and Notifications on one store, with the
--     clicks on a node and React's renders. An array of nodes has a number, since the effect on the
--     nodes runs when the array is another one. App/Downed follows a node after its kill.
--   RaftView: `RaftView` in App.tsx, its buttons and its consensus stream, on Store/EventLoop.
--   Trace: `ArchitectureView` in App.tsx. Trace/Runner has `runTrace` as one step, Trace/Panel change by
--     change with the fields, buttons and carousel beside it, Trace/Shown and Trace/Report what the
--     view prints.
--   Dashboards: `DashboardView` in App.tsx, pages/Dashboard.tsx and the components that it places:
--     NodeCard.tsx (Dashboards/Card), OpsChart.tsx and LagChart.tsx (Dashboards/Charts, Dashboards/Ticks).
--   MiniGraph: `FloatingMiniGraph` in App.tsx: its two settings with their storage, and its points.
--   Palette: the command palette of `App` in App.tsx.
--   Wire: src/protocol.cpp with include/vaultkv/util.h (Wire/Bytes, Wire/Frames, Wire/Replies,
--     Wire/Commands), the payloads of gateway/tlv_client.py (Wire/Commands) and the read side of a
--     connection in src/server.cpp (Wire/Connection). A read past the end of a payload is an outcome.
--   Engine: src/storage_engine.cpp (Engine/Defs, Engine/Serving) on Engine/MemTable, Engine/Log (wal.cpp),
--     Engine/Sstable with its Bloom filter, Engine/Compaction and Engine/Replication. Engine/Keys has
--     the maps and the sorted tables, Engine/Layers and Engine/Sound the invariant, Engine/Runs whole
--     runs with restarts. Functions have the source's names in small letters (`FlushMemTable` is
--     `flush_memtable`, `Open` is `open_engine`); a class is a record of its members. The tables of a level
--     are kept from the newest to the oldest.
--
-- State and events. Each component's state is a record with the fields of the source; an `async`
-- function is one function for each stretch between two waits. What the gateway, the clock and the
-- random numbers give is an argument, and so is what goes wrong with files, encryption and peers (`World` in
-- Engine/Defs), and whether a table had been begun when it went wrong. There is fuel in the decimal printing of a number, which takes the number itself, and in
-- the loop that parses frames, which takes the length of the buffer: each round takes six bytes off it.
-- Bounds are the source's: 120 samples, 60 notifications, 100 and 50 rows
-- of commands, 80 lines of the failover page, 30 of the consensus stream, 6 recent pages.
--
-- Numbers. Identifiers, ports and counters are naturals; times, latencies and rates belong to a type
-- that the store only carries, or, where the code computes with them, to an interface `Arith` whose
-- laws (Numbers/Defs) hold of doubles, for counters below 2^53; Numbers/Scaled is an instance in which the laws are proved.
-- The ticks of a chart's axis are taken as whole (Dashboards/Ticks).
--
-- Not modelled: markup, class names, icons, animations and the drawing of the charts; sockets, epoll,
-- threads, time-outs and OpenSSL; the bytes of the log and of the tables on disk, with their encryption and
-- check sums; crashes in the middle of a call, since calls are taken one at a time; the Raft node
-- (src/raft.cpp), which the server does not use; and the rest of the gateway in Python.
pub mod Common
pub mod Text
pub mod Numbers
pub mod RuntimeConfig
pub mod Requests
pub mod Store
pub mod Metrics
pub mod Feed
pub mod Quorum
pub mod Notifications
pub mod Trace
pub mod Wire
pub mod Engine
pub mod Palette
pub mod Explorers
pub mod Failover
pub mod PagesFeed
pub mod MiniGraph
pub mod App
pub mod RaftView
pub mod Dashboards
