-- ===== src/Lib.antt =====
-- The native C code of the agent: the media helper process and its client, the life cycle of the
-- Haskell runtime inside a host or the command line, the credential records in the keychain, the
-- inspection of the clipboard, and the network path monitor; and the C interface by which a host
-- drives the agent, with the Haskell code behind it. The rest of the agent is written in Haskell
-- and calls this code.
--
-- Media (packages/agent-webrtc/cbits). The agent starts a helper process for each peer connection,
-- capture or playback, and drives it by requests over a socket. helper-protocol.h is
-- Media/Protocol.antt: a message is its 16 bytes, and media_transfer is the two loops media_receive
-- and media_send. What a stream socket promises is the record Stream of Media/Protocol/Stream.antt.
-- helper-client.c is Media/Client.antt (media_request), Media/Call.antt and Media/AudioCall.antt
-- (the agent_peer_* and agent_audio_* calls) and Media/Launch.antt (media_open and media_close);
-- both sides are written in the monad of Media/Io.antt. helper.c is Media/Helper.antt: `dispatch`
-- is main's switch, `handle` goes from a request to its response, `serve` is the loop. It drives a
-- resource by the interface of Media/Device.antt, whose operations have the names of peer.h and
-- audio.h. peer.c is Media/Peer.antt, audio.c is Media/Audio.antt, and Media/Resource.antt makes
-- the interface of them. What GStreamer answers is an argument of each call. Media/Delivery.antt is
-- what a response gives to the client's caller.
--
-- Runtime (packages/agent-native-bridge/cbits/HaskellAgentBridgeRuntime.c). Runtime.antt has the
-- static variables and the three entry points; Runtime/Lifecycle.antt interleaves them as steps of
-- a process, where what runs under the lock is one step, and the command line's thread goes on step
-- by step without it.
--
-- Bridge (packages/agent-native-bridge/include/HaskellAgentBridge.h, and the Haskell code in
-- ffi/Agent/CLI/MacOS and src/Agent/CLI of that package that implements its functions).
-- Bridge/Browser.antt has the command codes, the limits and the structure of a browser request with
-- what a host must reject; Bridge/Browser/Commands.antt is BrowserTools.hs, which checks a tool's
-- arguments, and the part of BrowserBridge.hs that fills the structure. Bridge/Browser/Result.antt
-- has what the header asks of a result, Bridge/Browser/Rendering.antt the code that reads one, and
-- Bridge/Browser/Pending.antt the registry of requests that wait. Bridge/Frame.antt is a host's
-- reading of a HAEV frame and NativeLoopEvent.hs, which writes them. Bridge/Staging.antt is
-- EngineStaging.hs: what a host stages for a turn. Bridge/Syntax.antt is SyntaxBridge.hs, with
-- highlightCode and preserveSourceLines of packages/agent-syntax/src/Agent/Syntax.hs.
-- Bridge/Computer.antt and Bridge/Computer/Exchange.antt are ComputerBridge.hs, the first its
-- registrations, the second one call and one session. The URI parser, the functions on Unicode text,
-- the UTF-8 and PNG decoders, the tokenizer and the renderers of tool output are parameters.
--
-- Keychain (packages/agent-native-bridge/cbits/HaskellAgentMcpKeychain.c). Keychain.antt has the
-- operations over a record of the platform's calls, and a log of the objects that they create and
-- release. Keychain/Storage.antt says what the platform documents of its table of records.
--
-- Clipboard (packages/agent-cli/cbits/ClipboardTypes.c). Clipboard.antt has the inspection of the
-- advertised types and the cached snapshot; the type tests and the Pasteboard Manager's answers are
-- parameters.
--
-- NetworkPath (packages/agent-connectivity/cbits/NetworkPathMonitor.c). NetworkPath.antt has the
-- objects that a monitor owns. NetworkPath/Teardown.antt has its handlers and its destruction as
-- the turns of the framework, the serial queue and the destroying thread.
--
-- Machine integers keep their wrap-around: 32-bit words and the int that they are read as are in
-- Base/Words.antt, and the 64-bit counters are taken modulo 2 ^ 64. Objects that have to be
-- released are counted by `settle` of Base/Owned.antt. The transfer loops run on fuel: a round
-- takes a byte or a signal, so that more fuel than there are bytes and signals is enough; a request
-- moves at most 256 KiB and a header. The helper's loop has more rounds than bytes come in, since
-- every request takes some. The search for the number of a browser request has one round more than
-- there are waiting requests, and the reading of a frame as many as there are bytes.
--
-- Not modelled: what GStreamer, CoreFoundation, the Security framework, the Pasteboard Manager, the
-- Haskell runtime and the kernel do, beyond the records named above; timeouts; messages on stderr;
-- of HaskellAgentBridge.h the functions other than those above, as sessions, interactions and
-- repositories, and the requests, results and snapshots of a computer session; the Haskell packages
-- but for the files named above; benchmarks and tests.
pub mod Base
pub mod Bridge
pub mod Media
pub mod Runtime
pub mod Keychain
pub mod Clipboard
pub mod NetworkPath
pub mod Tests
