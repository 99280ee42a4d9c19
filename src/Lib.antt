-- ===== src/Lib.antt =====
-- whatsmcp: two programs that keep WhatsApp messages in SQLite and answer tools over them,
-- whatsapp-bridge (one package) and wabridge (layers: core, features, platform, delivery).
--
-- Base has the shared helpers: native-number tests, lists, Go strings as lists of code points,
-- results and keys. Sql has tables with primary keys, the statements on them, transactions, and a
-- database whose next statements may be refused. Domain/Jid is
-- wabridge/internal/core/domain/jid.go. The modules of Bridge are parts of whatsapp-bridge:
--
--   Std, Proto      parameters of Go's library, and the protobuf messages as the getters show them
--   Unwrap          unwrapMessage in main.go; five rounds, as in the source
--   Vcard, Decimal  telefonesDoVcard, formataContato in main.go; numbers as %d prints them
--   Content         extractTextContent, extractQuoted in main.go
--   Media           shortID, uniqueName, extractMediaInfo, extractDirectPath in main.go
--   Menu, Choice    reading, printing and choosing of options, and replies, in menu.go
--   Store           MessageStore in main.go; Store/Menus is its part in menu.go
--   Events          GetChatName, handleMessage, handleHistorySync in main.go
--   Send            sendWhatsAppMessage in main.go; isPersonChat, chatTwins, startsChat in mute.go
--   Download        downloadMedia, extractDirectPathFromURL in main.go
--   Audio           analyzeOggOpus, placeholderWaveform in main.go; fuel is the number of bytes
--   Connection      triggerConnect, reconnectLoop in main.go; Pairing is doQRPair, Tray refreshStatus,
--                   rotateLog and showLogTail
--   Jids            jidDe in grupos.go, sides and senders in mcp.go
--   Mcp, Mcp/Chats  the tools of mcp.go that read messages and chats; the others in Mcp/Tools, the
--                   lines that they print in Mcp/Lines, toolConnectionStatus in Mcp/Status
--   Select          selecionaOpcao in menu.go
--   Rest, Serve     the handlers of startRESTServer and guardLocal in main.go
--   Groups          the handlers of grupos.go
--   Instance        instancia.go
--   AppState        the handlers of mute.go, star.go and contact.go
--   Run             the event handler, the queue and its worker in runBridge of main.go, with Rest
--                   beside them, the seven routes of startRESTServer; each step runs to its end
--
-- The other modules of Domain are the value objects beside jid.go. The modules of Wabridge are parts
-- of wabridge/internal: Session is platform/wa/session.go, Bus is core/eventbus/bus.go, Repos are the
-- repositories of platform/persistence/sqlite, Features are core/registry/registry.go, the event names
-- of core/domain/event.go and the features messaging and labels, which the bus calls;
-- Translate is translate.go, media.go and events.go of platform/wa, whose events go on the bus, and
-- Queue the channel and the worker between them. Send is platform/wa/send.go, Download the use case
-- features/messaging/download.go with platform/wa/download.go, Contacts the repository contact_repo.go
-- and the resolver, Logs platform/logging/rotating_file.go, and Rest the server of delivery/rest, which
-- calls Send and Download and shows the file of Logs. Pairing is platform/wa/qr.go, which publishes
-- the code on the bus for Tray, delivery/tray/tray.go, whose status loop calls Session. Qr has the
-- channel and the desk that the pairings of both programs share.
--
-- A received event runs from Events through Unwrap, Content, Media and Menu, which read the message,
-- into Store, which writes it. A store operation takes a database and returns the next one and its
-- result; an error is a Boolean or a value. Loops are structural; the only bound is the five rounds of
-- Unwrap and the digits of Decimal. Strings are valid UTF-8, so that a position counts code points.
-- Times are seconds. The whatsmeow client, the file system, protobuf encoding, case
-- maps, LIKE, floating point, JSON and time layouts are parameters.
--
-- Not modelled: the wiring of the two programs, which constructs and starts the parts, the vendored
-- whatsmeow, which is another project, in Run the requests to the MCP server and to the routes of
-- groups, mute, star and contact, a history sync after a logout, which panics on the missing session,
-- requestHistorySync in main.go, which nothing calls, the scripts, the whisper tool, and
-- what is printed on a terminal.
pub mod Base
pub mod Sql
pub mod Domain
pub mod Qr
pub mod Bridge
pub mod Wabridge
pub mod Tests
