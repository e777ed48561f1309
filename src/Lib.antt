-- ===== src/Lib.antt =====
-- OpenVPN Control panel: the logic of the browser frontend, frontend/src.
--
-- The panel is one React application. The URL of the page is read into a route (appRoutes.ts). The
-- route decides which entities are fetched from the backend, how often, and with which requests
-- (panelData.ts); App.tsx runs one such refresh at a time and applies the answers to its state. On
-- that state stand the editors: the settings of a server, sent to its agent and saved by the panel,
-- the profile of a client, the diff of a configuration draft against the server's file, the dnsmasq
-- rules of a node, the firewall of servers, organizations and users, the profiles of users and
-- organizations, the lists of certificates, sessions and logs, and tables whose rows are paged and
-- dragged. All of it stands behind a sign-in, whose token goes with every request.
--
-- Files and what they model:
--   Shared, Shared/*: lists and numbers, texts as JavaScript treats them (trim, split, join), Boolean
--     tests, `filter`, `some` and the stable `sort` of arrays. The names of the language's own
--     functions are kept.
--   Routes/State, Routes/Parse, Routes/Paths: frontend/src/appRoutes.ts, `parseAppRoute` and `paths`.
--     Routes/Url: what the browser does for them, a record `UrlPlatform` of percent-encoding, of the
--     encoding of URLSearchParams and of the split of a URL, with laws `IsUrlPlatform`; a name or value
--     that is malformed makes `decode` return none, where `decodeURIComponent` throws. The laws speak
--     of the paths and queries that the panel writes: a browser takes the segments `.` and `..` away
--     and escapes apostrophes in a query, so ids are not these, and a query is read in both forms.
--     Routes/Queries, Routes/Reading, Routes/RoundTrip, Routes/Tokens: proofs.
--   PanelData/Keys, PanelData/Poll, PanelData/Fetch: frontend/src/panelData.ts. The server is a
--     function from requests to settled answers.
--     PanelData/Refresh: `refreshPanelData` and `loadData` of frontend/src/App.tsx, cut at the `await`;
--     `Step` is what may happen next and `Reach` a sequence of that.
--   ConfigDiff: `lineDiffLcs` and `rawConfigFromServerSettingsDiff` of frontend/src/App.tsx. The walk
--     back through the table has fuel for as many rounds as both texts have lines, and each round
--     takes one line at least off one of them, so the fuel is enough (ConfigDiff/Script).
--   Settings/Meta, Settings/ServerFields, Settings/ClientFields: the tables of
--     frontend/src/openvpnServerSettingsMeta.ts and frontend/src/openvpnClientSettingsMeta.ts.
--     Settings/Values: JavaScript values and objects; finite numbers are a parameter `Numbers`.
--     Settings/Agent, Settings/Panel, Settings/Client, Settings/Fallback: the functions of
--     frontend/src/App.tsx that make the agent's payload, the panel's record, the client's profile and
--     the files shown where the backend gives none.
--   Dnsmasq: `parseDnsmasqConfigToDraft` and `buildDnsmasqTextFromDraft` of frontend/src/App.tsx.
--   Tables/Reorder, Tables/Pages: `reorderRowInList`, `sliceTablePage` and `TablePagination` there.
--   Tables/History: the order, the durations and the searches of the logs.
--   Labels/Duration, Labels/Status, Labels/Certificates, Labels/Hosts: texts and classes that the
--     panel shows.
--   Session/Token, Session/Access: tokens and the sign-in of frontend/src/App.tsx. An event of
--     Session/Access is an action of the administrator, an answer of the server, a tick of the clock
--     or a reload, and `step` is its handler followed by the effect that stores the token. Answers
--     may come at any time. Session/Token/Base64 is what a token is made of.
--   Session/Setup: the dialog that sets up a second factor, its two requests cut at the `await`, and
--     the effect that starts it.
--   Http: `request`, with what `fetch` gives as an argument.
--   Firewall/Rules, Firewall/Modal, Firewall/Stored, Firewall/Saved: the lists of rules, the dialog of
--     one rule, the stored forms of rules, and loading and saving, cut at the `await`.
--   Editors/User, Editors/Organization: the effects that fill the editors from the polled lists. An
--     event is a poll or an edit, and each poll gives a list that React takes for a new one.
--   Certificates, Certificates/Validity: the certificates that pages and dialogs offer, and how long
--     one may be issued for.
--   Metrics/Time, Metrics/Chart, Metrics/Live: frontend/src/monitoringTime.ts, the series and scales of
--     frontend/src/MonitoringCharts.tsx, and `mergeLiveMetricSamples` of frontend/src/App.tsx. Times
--     and rates are natural numbers.
--   Users/Profiles, Users/Sessions: the users with their sessions and the names on certificates.
--     Users/Create: the form of a new user as the requests that it makes, with the server as a function
--     of each. Users/Disconnect: ending a session.
--   ApiConfig: frontend/src/apiConfig.ts.
--   Tests: the theorems at concrete inputs.
--
-- Not modelled: rendering and timers of React, the DOM, and the effects but those named; the drawing
-- of charts and the pages of documentation; the Go backend, which is the other side of every request;
-- deployment. Case mapping, the search in a text, the comparison of texts by locale and the reading of
-- dates are parameters where a function uses them; the comparison is `collate`, the test whether it is
-- at most 0, and theorems that need it total and transitive say so. An array is sorted by insertion,
-- which is the one stable order wherever the comparison is total and transitive. Texts are sequences of
-- code points. A decimal number has fewer digits than its value and one, which is the fuel of
-- `decimal`.
pub mod Shared
pub mod Routes
pub mod PanelData
pub mod ConfigDiff
pub mod Settings
pub mod Tables
pub mod Labels
pub mod Dnsmasq
pub mod ApiConfig
pub mod Session
pub mod Firewall
pub mod Editors
pub mod Certificates
pub mod Metrics
pub mod Users
pub mod Http
pub mod Tests
