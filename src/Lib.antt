-- ===== src/Lib.antt =====
-- syncRTC (syncRTC-server, syncRTC-client): a meeting system. Clients hold one TCP connection to
-- RealtimeServer, which keeps meetings and chat and relays media signalling over a Unix socket to
-- MediaServer; MediaServer answers offers and forwards RTP between the members of a room.
--
-- Files, with paths from the repository's root:
-- - Prelude.antt and below: numbers, Boolean tests, lists, association lists for the maps of the
--   sources, JSON values.
-- - Wire.antt: the big-endian length fields of the frames.
-- - Realtime/IoWakeup.antt: IoWakeup (syncRTC-server/RealtimeServer/src/net/IoWakeup.cpp): notify is
--   Notify, take_ready is Take, request_stop is RequestStop, close is Close. Threads are a list of
--   requests in the order in which the mutex admits them.
-- - Realtime/Session.antt and below: Session (syncRTC-server/RealtimeServer/src/net/Session.cpp).
--   Session/Sending.antt has send (Send), handle_write (HandleWrite), close (Close); the kernel's
--   answers to send(2) are a list, and one that is over answers EAGAIN. Session/Heartbeats.antt has
--   handle_heartbeat (HandleHeartbeat) and connection_expired (ConnectionExpired).
--   Session/Receiving.antt has handle_read (HandleRead) and parse_frames (ParseFrames); LogicSystem,
--   the clock and the JSON reader are parameters, the record Env.
-- - Realtime/Presence.antt and Realtime/MediaSignals.antt with their files: the two tables of
--   syncRTC-server/RealtimeServer/src/service/LogicDispatch.cpp. reserve_user, finish_join,
--   release_user and release_room_users are ReserveUser, FinishJoin, ReleaseUser and
--   ReleaseRoomUsers; register_signal, find_signal, remove_signal, release_media_session and
--   accept_media_event are RegisterSignal, FindSignal, RemoveSignal, ReleaseMediaSession and
--   AcceptMediaEvent. A history is a list of calls in the order of the mutex.
-- - Realtime/SlowPool.antt and Realtime/SerialQueue.antt with their files: SlowPool, BusinessScheduler
--   and SerialCommandQueue (syncRTC-server/RealtimeServer/src/service/BusinessScheduler.cpp). reserve,
--   release, submit and pump are Reserve, Release, Submit and Pump; wait, resume and return are
--   Operation::Wait, the function that it hands out, and the end of the coroutine. A run is a list of
--   events, whichever thread they come from.
-- - Realtime/Meetings.antt and its files: the handlers of a meeting in
--   syncRTC-server/RealtimeServer/src/service/LogicSystem.cpp. Meetings/Join.antt has join_meeting
--   (JoinMeeetingHandler), Meetings/Leaving.antt start_meeting, leave_meeting and end_meeting,
--   Meetings/Reconnection.antt disconnect (SessionDisconnectedHandler), expire_member
--   (ExpireMemberHandler) and check_timeouts (ReconnectTimeoutCheckHandler), Meetings/Chat.antt
--   send_message, group_messages and private_messages, Meetings/Signalling.antt media_offer,
--   media_answer, media_candidate and media_response, named after their handlers. The operations of a
--   meeting come one after the other, as Realtime/SerialQueue.antt shows of the queue that runs them.
--   Every call of MySQL or Redis is answered by a field of the handler's argument, and the writes are
--   listed as commands; a storage call that throws is not modelled, and a response is a value with
--   the fields that the handler decides.
-- - Realtime/Accounts.antt and its files: login, create_meeting, past_meetings and ai_ask, the handlers
--   of the same file that need no meeting.
-- - Realtime/Dispatch.antt and its files: how a message comes to its handler. route is Route up to the
--   queue of the meeting, dispatch is Dispatch (syncRTC-server/RealtimeServer/src/service/
--   LogicDispatch.cpp), with the handlers as a parameter, and maps what initHandlers registers.
-- - Media/MediaSession.antt and Media/Room.antt with its files: MediaSession and MediaRoom
--   (syncRTC-server/MediaServer/src/media). A session object is known by its instance id. Which
--   calls of the WebRTC library throw, and which of its tracks are open, are parameters.
-- - Media/RoomPool.antt and its files: one worker of RoomThreadPool
--   (syncRTC-server/MediaServer/include/service/RoomThreadPool.h). post is Post; take_task and finish
--   are the two critical sections of RunWorker; a run is a list of turns at the worker's mutex.
-- - Media/Logic.antt and its files: LogicSystem of MediaServer
--   (syncRTC-server/MediaServer/src/service/LogicSystem.cpp). handle_room_event is HandleRoomEvent,
--   the other functions are named after the handlers. An event carries what the WebRTC library
--   answers in it; a connection is a number, and stops by an event of its own. Logic/Requests.antt
--   has parse_media_signal_request, post_msg_to_que and post_signal_disconnected.
-- - Media/SignalSession.antt and its files: Session of MediaServer
--   (syncRTC-server/MediaServer/src/net/Session.cpp). send is Send, stop is Stop; take_frame,
--   finish_frame and abandon are the parts of SendLoop; send_all, receive_all and receive are SendAll,
--   ReceiveAll and Receive.
-- - Tests and below: runs on concrete values.
--
-- Fuel: parse_loop runs on the length of the receive buffer plus one; every round takes a header
-- off it, and parse_frames_fuel (Realtime/Session/Receiving/Chunks.antt) shows that more fuel changes
-- nothing. The thread of a RoomThreadPool worker that is told to stop needs
-- `load` turns (Media/RoomPool/Drain.antt), and a SerialCommandQueue as many steps as its own `load`
-- (Realtime/SerialQueue/Drain.antt). The loops of HandleWrite and HandleRead recurse on the answers of the kernel.
--
-- Not modelled: sockets, epoll and eventfd themselves, the database and Redis clients, generated
-- protobuf code, the QML interface, the codecs and the WebRTC library.
pub mod Prelude
pub mod Wire
pub mod Realtime
pub mod Media
pub mod Tests
