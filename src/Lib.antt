-- ===== src/Lib.antt =====
-- Wormhole, the desktop client of a peer-to-peer file sharing program: the state that the client
-- keeps in the browser, the operations on it, and the handlers that make them.
--
-- The program is a React application (apps/desktop/src) over a Rust daemon. `types/` declares the
-- data with its storage and its pure updates; a hook of `hooks/` keeps one such value as React
-- state, saves it in localStorage when it changes and answers the backend's events; `App.tsx`
-- connects the hooks, and the components show their values. The hooks interact through the history:
-- favorites, recent files, projects and transfers each drop what belongs to a share or connection
-- that the history no longer has. Errors of the storage are caught, but for the telemetry settings,
-- and leave the value in memory.
--
-- Which file models which part (a file of the same name holds the definitions, its folder the
-- theorems):
--   Storage       localStorage and JSON, as records with the law of each as a field
--   Paths         the path helpers of App.tsx, and the folder names that the hooks take from a path
--   History       apps/desktop/src/types/history.ts
--   HistoryHook   apps/desktop/src/hooks/useWormholeHistory.ts
--   Sources       which share or connection an entry comes from, and the clean-up's test
--   Favorites     types/favorites.ts, hooks/useFavorites.ts
--   Recent        types/recent.ts, hooks/useRecentFiles.ts
--   Projects      types/projects.ts, hooks/useProjects.ts
--   Transfers     types/transfers.ts, hooks/useTransfers.ts, the sidebar's list in App.tsx
--   Texts         the operations on texts: `includes`, `trim`, `toUpperCase`, prefixes
--   JoinCode      extractJoinCode and formatJoinCode of App.tsx
--   Telemetry     types/telemetry.ts, hooks/useTelemetry.ts
--   FileIndex     hooks/useFileIndex.ts
--   Session       the state and the handlers of the component App in App.tsx
--   SetupWizard   components/SetupWizard.tsx; its checks are in SetupWizard/Catalog, its buttons in
--                 SetupWizard/Guide
--   TransferPanel components/TransferProgress.tsx
--   FileBrowser   the component FileBrowser of App.tsx
--   ShareDialog   the component ShareDialog of App.tsx, with the hosts of src-tauri/src/commands.rs
--   ConnectDialog the component ConnectDialog of App.tsx, with the client handles of commands.rs
--   DeepLinks     the links with which the system opens the application, in App.tsx
--   AllFiles      the component AllFilesView of App.tsx and the media filter
--   Times         the texts of times, the badges and the card of a share in App.tsx
--   FileIcons     getFileIcon of App.tsx
--   Sidebar       the component Sidebar of App.tsx
--   SettingsPage  the component SettingsPage of App.tsx, with check_for_updates of commands.rs
--   JoinPage      apps/web/src/app/j/[code]/page.tsx
--   Downloads     apps/web/src/app/page.tsx and the pages of apps/web/src/app/download
--   Common        JavaScript's array operations on lists, and lists with a key
--   Tests         runs of the definitions and the theorems at concrete inputs
--
-- How the code is read. An array is a list, `undefined` and a missing field are `none`, an interface
-- is a record with its fields in the source's order and a string union a data type. A state update
-- `setX(prev => e)` is the function from prev to e; a hook in which events and timers interact is a
-- step function on a record of its states. `Partial<T>` is a record of optional fields, and a patch
-- that gives a field sets it. Numbers that the program only counts or compares are natural numbers.
--
-- What is a parameter. The clock, fresh identifiers, random numbers and the answers of the backend
-- are arguments of the operations that use them, one argument for each reading. localStorage and
-- JSON are records of operations with the laws the code relies on: a write that does not fail is
-- read back, another key is not touched, and a text that `stringify` made is parsed to the value it
-- was made of. No definition needs fuel: every loop of the source goes over a list.
--
-- How the parts meet. The join page normalizes the code of its address and opens a deep link; the
-- application reads the code from the link, keeps it and opens the dialog of connecting, which shows it
-- and asks the backend for the connection; the answer, like that of sharing a folder, goes into the
-- history, from which the views take their folders. The dialogs stand beside the application's state in
-- one record, and what the user, the backend and the timers do are steps on it.
--
-- What is not modelled: the rendering of the components, with the lists of recent files and projects in
-- App.tsx; texts of floating-point numbers; the error boundary and the window controls; the Rust crates
-- but for the tables of hosts and client handles and the search for updates (they are reached by
-- `invoke` and events only); the changelog and the static pages of the web site, and the copied
-- component library.
pub mod Common
pub mod Storage
pub mod Paths
pub mod History
pub mod HistoryHook
pub mod Sources
pub mod Favorites
pub mod Recent
pub mod Projects
pub mod Transfers
pub mod Texts
pub mod JoinCode
pub mod Telemetry
pub mod Session
pub mod FileIndex
pub mod SetupWizard
pub mod FileBrowser
pub mod ShareDialog
pub mod ConnectDialog
pub mod DeepLinks
pub mod AllFiles
pub mod Times
pub mod FileIcons
pub mod Downloads
pub mod Sidebar
pub mod SettingsPage
pub mod TransferPanel
pub mod JoinPage
mod Tests
