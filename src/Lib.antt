-- ===== src/Lib.antt =====
-- The web console of the danmaku server (frontend/src), whose own logic is modelled here: it signs
-- users in, lists and edits danmaku and the pools that they are collected in, imports files of
-- danmaku, and talks to the server by HTTP.
--
-- The parts, and the files that model them:
--   * Js: what the language and its library do where the source relies on it. Text is a list of
--     UTF-16 units (Js/Text), Number an exact decimal or one of the special values (Js/Number),
--     Js/Print turns numbers into texts, Js/Int32 has the bitwise operators, Js/Value the values
--     that JSON.parse gives, and Js/Outcome thrown errors (ApiClientError among them) and
--     asynchronous code, which takes a world and leaves one.
--   * Api/Types: the types of frontend/src/api/types.ts and catalog-types.ts, a record each, in
--     snake_case (casEnabled is cas_enabled); a field that may be missing is an Option.
--   * Api/Client: frontend/src/api/client.ts. apiRequest is api_request, in the parts request_of
--     (up to the call of fetch), receive (the answer or the failure of fetch), read_body,
--     response_code, failure_message and settle; queryString is query_params; errorMessage is
--     error_message. Api/Client/Answers and Api/Client/QueryString prove what callers rely on.
--   * Api/Mutation: useApiMutation of frontend/src/hooks/use-api-mutation.ts, as api_mutation.
--   * Import: frontend/src/lib/danmaku-import.ts. importDanmakuFile is import_danmaku_file
--     (Import/File), importDanAnyAss import_dan_any_ass, and the functions on ASS headers, on the
--     common JSON and on the items of dan-any stand in Import/Ass, Import/Common and
--     Import/Normalized under their own names. A world is the list of what has happened to the
--     import's database: it is opened, it imports, it is closed.
--   * PoolCreation: frontend/src/lib/pool-creation.ts. The closure's variable is the type
--     Workflow; a run is start (to the await of create()), on_created (to the await of bind()) and
--     on_bound, and run puts them together for a run that nothing interrupts. PoolCreation/Runs
--     is about one run, PoolCreation/Retries about repeated ones, and PoolCreation/Interleaving
--     has the step relation of many runs at once, with resets in between.
--   * Binding: frontend/src/hooks/use-pool-video-binding.ts around that workflow (create_bound,
--     open_changed) and the query of frontend/src/components/pool-video-binding-fields.tsx that
--     fetches all videos page by page (fetch_pages), which Binding/AllVideos is about.
--   * Paging: frontend/src/components/list-pagination.tsx. pages, first, last and the two
--     disabled tests have their names from the source; clicks is a run of clicks.
--   * Console: Console/Auth is AuthBoundary of frontend/src/auth/session.tsx (make_session,
--     load_session, boundary), Console/Routes the route table and the guards of
--     frontend/src/App.tsx (element_at; visit follows the redirects), and Console/Login the page
--     frontend/src/pages/login-page.tsx (safe_redirect, login_submit). Console/Auth/Expiry puts
--     the client and the session together, and Console/Shell is frontend/src/components/app-shell.tsx
--     (links, title_of).
--   * Users: frontend/src/pages/users-page.tsx. Users has the list (list_event, users_query) and
--     what may be done to a user, Users/Password randomPassword, whose random bytes are its
--     argument, and Users/Editor the dialog UserEditor: opened_form is its effect, edits what is
--     typed and chosen, save_body the submitted body.
--   * DanmakuPage: the list of frontend/src/pages/danmaku-page.tsx. list_event has submit, reset and
--     the changes of the form and the page, and danmaku_query the request; the address is the
--     list of its parameters, which are those of Api/Client. DanmakuPage/Editor has the form of
--     DanmakuEditor: loaded_form is its effect, edited_item what it sends.
--   * Pools: the pages of the sources of danmaku, frontend/src/pages/*-page.tsx. Pools/Requests has
--     their requests for the name of a source, Pools/Panel the component PoolPanel with its dialog
--     (panel_event; submit_create is the dialog's onSubmit), and Pools/Dialogs the components
--     PoolDanmakuDialog, BindingDialog and KeywordPanel; Pools/Iqiyi, Animeko, Dandanplay, Catalog
--     and Bilibili are the pages, each with its own bodies, keys and labels. Pools/External is
--     external-page.tsx, with its ImportDialog (submit) and components/external-keyword-panel.tsx.
--     Pools/Panel/Sound, Once and Phases are about the panel, Pools/Dialogs/Keywords about the
--     rules, Pools/External/ImportDialog/Once about imports that are submitted again, and
--     Pools/Bilibili/Fresh about dialogs that are given another pool.
--   * VideosPage: frontend/src/pages/videos-page.tsx, its list of videos; VideosPage/Dialog is the
--     component VideoDialog (binding_body is what submitBinding sends), and VideosPage/Offered is
--     about the pool that a video is linked to.
--   * Search: the panels that look for a pool's video, frontend/src/components/third-party-search.tsx,
--     dandanplay-search.tsx and bilibili-lookup.tsx; Search/Episodes is about the episode they give.
--   * AddDanmaku and Rules: frontend/src/components/add-danmaku-form.tsx and native-rule-panel.tsx.
--   * Widgets: Widgets/Select is frontend/src/components/searchable-select.tsx.
--   * Profile: frontend/src/pages/profile-page.tsx, with the forms of ProfileEditor
--     (opened_profile, profile_body) and PasswordEditor (submit_password).
--   * Theme: frontend/src/components/theme-provider.tsx; theme_event has setTheme and a change of
--     the media query.
--   * Display: frontend/src/lib/format.ts, normalizeHex of frontend/src/lib/picker-values.ts, and
--     the labels of the pages, under their own names; colorHex for whole numbers.
--
-- How the parts interact: the pages call the client, whose errors become the messages that the
-- console shows; the session decides on the routes; the hook of Binding gives the workflow the
-- client's requests as its bind, and the panels of Pools submit their forms to it. The values of
-- their selects are texts of numbers, which the pages turn into numbers again: Js/Print/RoundTrip
-- and Js/Print/Whole have that String and Number are inverse there.
--
-- Choices and bounds. Code outside the repository is a parameter: fetch, encodeURIComponent, md5,
-- JSON.stringify, JSON.parse, atob, the decompressors and the adapters of dan-any (Platform of
-- Import/File holds those of an import). Numbers are exact: the rounding of a double and the sign
-- of zero are not modelled. The fuel of digits_before is the number itself and one more, which is
-- more than it has digits. visit has fuel for a number of redirects, and three elements are
-- enough for every location. fetch_pages has fuel for a number of requests; how many are enough is
-- proved in Binding/AllVideos.
--
-- Not modelled: the server (Go), the rendering of the components and the kit in components/ui, the
-- query library's cache and retries, the columns of the tables, and, for now, the colour and date
-- pickers. A mutation of a page is one step, from the event to its end, but for the panel
-- of Pools/Panel, where other events come in between.
mod Prelude
pub mod Js
pub mod Api
pub mod Import
pub mod Console
pub mod PoolCreation
pub mod Binding
pub mod Paging
pub mod Display
pub mod Pools
pub mod Rules
pub mod AddDanmaku
pub mod Search
pub mod Theme
pub mod Profile
pub mod DanmakuPage
pub mod Users
pub mod VideosPage
pub mod Widgets
