-- ===== src/Lib.antt =====
-- playercn, the browser's side of a watch party: a verification library.
--
-- A room has one timeline, kept by the server. The browser opens a WebSocket to the room, estimates
-- the server's clock from probes, keeps the room's state by a reducer over the server's messages,
-- and corrects its player against the position that the timeline gives at the estimated time. A
-- player is one of several engines over third-party embeds, built by the room's player, whose
-- controls, like a key, send the room an intent; panels beside it show the chat, the queue and the
-- people. A shell opens the socket for a viewer who is signed in and a room that was found, and a
-- client of the server's HTTP interface keeps the access token.
--
-- The parts, and the files of the repository that they model:
--   Protocol   packages/protocol/src/primitives.ts, server-messages.ts, client-messages.ts: the
--              records and messages; rest.ts: the bodies of requests, in Protocol/Rest. A constructor
--              stands for each value of `t`. An id, and a text that is only compared, is a number,
--              the empty text 0. The checks of clientMessage are is_client_message of
--              Protocol/Schema, those of serverMessage is_server_message of Protocol/Checked.
--   Timeline   packages/protocol/src/timeline.ts: positionAt is position_at, decideCorrection is
--              decide_correction.
--   Clock      apps/web/src/realtime/clock.ts: ClockEstimator with addSample, seed, #recompute,
--              serverNow, status and reset under the same names; startProbing in Clock/Probing.
--   Store      apps/web/src/stores/room-store.ts: apply and appendMessage are apply and
--              append_message.
--   Backoff    apps/web/src/lib/utils.ts: backoffDelay.
--   Debounce   the same file: debounce, as a timeout and a log of calls.
--   Format     the same file: formatDuration and formatRelative; initialsOf of
--              apps/web/src/lib/initials.ts in Format/Initials, with the server's initials of
--              apps/server/src/util.rs beside it.
--   Socket     apps/web/src/realtime/socket.ts: each method and handler of RoomSocket is a function
--              on its record, and an event of step. connect() is split where it waits for a ticket. A
--              WebSocket that #ws no longer refers to lives on in orphans, with events of its own.
--   Sync       apps/web/src/realtime/use-player-sync.ts: tickRef.current is tick; the loop's calls of
--              the player are a list of commands.
--   Api        apps/web/src/lib/api.ts: a call of api is split where it waits for its response and
--              for a refresh; refreshAccessToken is refresh_access_token and on_refreshed. The headers
--              and toApiError are in Api/Errors, the retry of components/providers.tsx in Api/Retry.
--   Shortcuts  apps/web/src/hooks/use-room-shortcuts.ts: onKeyDown is on_key_down.
--   Engine     apps/web/src/realtime/player: usableDuration of engine.ts; KickEngine, YouTubeEngine,
--              TwitchEngine and MediaEngine of kick-engine.ts, youtube-engine.ts, twitch-engine.ts
--              and media-engine.ts as records, each method, listener and timeout an event of step.
--              #create, #attachSource and play() are split where they wait. What an engine calls, of
--              its player and of the room, is a log, newest first. The loaders of the embeds' scripts,
--              in realtime/youtube.ts and twitch-engine.ts, are Engine/Scripts.
--   Player     apps/web/src/components/room/player.tsx: its state, the effect that builds the engine,
--              the functions that it hands to it and useChrome in Player/View; the handlers, and
--              which controls are there and not disabled, in Player/Controls, and in their rows in
--              Player/Menus; what is written and laid over the picture in Player/Overlay.
--   Panels     apps/web/src/components/room: chat.tsx, participants.tsx and queue.tsx.
--   Shell      apps/web/src/components/room/room-shell.tsx: the socket's life, with Socket and Store
--              as its parts, and the screens; useTheatreMode and useErrorToasts in Shell/Theatre,
--              useShortcutActions in Shell/Actions.
--   Session    apps/web/src/components/session-provider.tsx and join-gate.tsx; the provider with the
--              client's token and timer is App of Session/Tokens.
--   Forms      apps/web/src/routes/rooms.new.tsx is NewRoom, rooms.index.tsx is Directory;
--              apps/web/src/components/room/settings.tsx is Settings, account-menu.tsx is Rename. The
--              server's update_room of apps/server/src/rooms/routes.rs, which the settings are saved
--              by, is in Forms/Update, with the CHECK of apps/server/migrations on the topic.
--   Theme      apps/web/src/components/theme-provider.tsx, apps/web/src/lib/themes.ts, and
--              useRoomTheme of room-shell.tsx.
--
-- A React component is its useState and useRef values in a record, and a render or a handler is a
-- step; an effect runs where one of its dependencies changed. What the browser, React or a library
-- answers is an argument.
--
-- Numbers. JavaScript's numbers are exact values on the grids of Units, fine enough that no division
-- of the source rounds but the tenths of a length in Shortcuts, which are rounded down; the rounding
-- of doubles is not modelled. A position that a player reports may be infinite or not a number
-- (Number). A volume is counted in thousandths by an engine, in twentieths, the step of its slider,
-- by the room's player. A number that a form takes from a field is in thousandths. The values in the
-- loop of formatRelative are fractions.
--
-- Time, randomness, the visibility of the tab, the network and the embedded players are third-party:
-- what they answer is an argument or an event, and a theorem ranges over all of them. The sort of
-- Array.prototype is a stable insertion sort (Prelude/Sort). Each loop of the source runs over a
-- list. The digits of a number are the only recursion on fuel; one more than the number is enough,
-- which the round trip of Format/Durations rests on.
--
-- Not modelled: the Rust server but for the update of a room and the initials, the markup and the
-- styles that React renders with the component kit of apps/web/src/components/ui, the classes of
-- Unicode, which are parameters of Format/Initials, and logging.
pub mod Api
pub mod Backoff
pub mod Clock
pub mod Debounce
pub mod Engine
pub mod Format
pub mod Forms
pub mod Number
pub mod Panels
pub mod Player
pub mod Prelude
pub mod Protocol
pub mod Session
pub mod Shell
pub mod Shortcuts
pub mod Socket
pub mod Store
pub mod Sync
pub mod Tests
pub mod Theme
pub mod Timeline
pub mod Units
