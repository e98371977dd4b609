-- ===== src/Lib.antt =====
-- rk-grpc: a model of the parts of the repository that carry logic of its own.
--
-- Prelude passes on the names of the standard library, with Boolean tests and list lemmas.
--
-- Web models the browser side of the gRPC-Web example, example/boot/grpc-web. Web.Request and
-- Web.Response are the two message classes of api/gen/v1/greeter_pb.js, a function for each method;
-- Web.Client is the two stubs of api/gen/v1/greeter_grpc_web_pb.js; Web.Page is client.js. The
-- libraries are parameters: Web.Jspb is what the messages use of google-protobuf, Web.GrpcWeb what
-- the stubs use of grpc-web, each a record of operations with records of their documented laws. A
-- reader or writer is a value that each call returns anew. Web.Plain has libraries that meet the
-- laws. The decoding loop `deserialize_binary_from_reader` takes fuel, one unit for a round: a
-- round consumes a byte at least, so more fuel than there are bytes is enough. The page calls
-- the server through the stub; the document is the list of its elements that have an id, and what
-- the browser parses of the text that innerHTML is set to is a parameter.
-- Web.Bundle is bundle.js: the module loader of its first line (`load`, with `run_factory` for the
-- call of a module's factory); Web.Bundle.Program is the top-level code of the three modules of the
-- program as statements that make objects and modules, or throw where a library lacks what they use. Fuel is the depth of the loads; a load that goes one
-- deeper has made one more module of the table, so more fuel than modules is enough. Objects are
-- lists of the names of their members, in a store that the modules share, and the names that the
-- two libraries export are parameters.
--
-- Proxy models the gRPC proxy, boot/proxy_entry.go, and the part of boot/grpc_entry.go that reads
-- its rules. Proxy.Config turns the boot configuration into a rule (`configured_rule`, the proxy
-- part of RegisterGrpcEntryYAML); Proxy.Rule is the rule with its three matchers; Proxy.Director is
-- GetDirector; Proxy.Codec is rawCodec over protoCodec; Proxy.Handler is the loop of
-- handler.handler beside the goroutines forwardServerToClient and forwardClientToServer, as a step
-- function over a system of the three: a schedule is a list of steps, and what a stream call
-- returns stands in the step. The CIDR, IP and regular-expression functions and the random source
-- of Go are parameters, and so is the protobuf codec. A Go map is the list of its entries in the
-- order in which it happens to be walked.
--
-- Proxy.Entry is ProxyEntry, as NewProxyEntry makes it of its options. Proxy.Call is
-- handler.handler as a whole: the checks before the loop, the director, the dial and
-- the stream of the backend (grpc.DialContext and grpc.NewClientStream are parameters), the loop.
--
-- Middleware models middleware/. Of middleware/common.go, Middleware.Slices is
-- MergeAndDeduplicateSlice; Middleware.Payload is the payload of a server context
-- (WrapContextForServer, GetServerContextPayload, AddToServerContextPayload,
-- ContainsServerPayload): the maps stand in a heap, and a context has the address of its own;
-- Middleware.Address is GetRemoteAddressSet with GetRemoteAddressSetFromMeta, over
-- net.SplitHostPort as a parameter; Middleware.Info is GetGwInfo, GetGrpcInfo and ToOptionsKey.
-- Middleware.Outgoing is MergeToOutgoingMD, over metadata.AppendToOutgoingContext. Middleware.Access
-- is the accessors of middleware/context/context.go that read the payload, with their type
-- assertions, which may panic, and Middleware.Access.Types the types that the values under the keys
-- have. A handler takes a context and the world (the heap of payloads, the notes that the event, the
-- logger, the metrics and the span were given, the headers of the answer), and returns or panics; an
-- interceptor is a function on handlers (Middleware.Handler), of calls or of streams. The
-- interceptors are Middleware.Panic, Log, Prom, Trace, Jwt and Timeout, and Middleware.Guard for
-- auth, ratelimit and meta, each with its unary and its stream one; what an option set of rk-entry
-- decides is a parameter. The token that a context is given is an argument of the handler. Of
-- WaitFunc, which runs the handler of middleware/timeout beside a clock, it is a parameter which
-- functions it has run, in which order, when it returns; a handler that runs on after that is not
-- followed. Middleware.Chain is the list of interceptors that RegisterGrpcEntryYAML makes of the
-- configuration, and the chains of them. Middleware.Plain has libraries that meet what is assumed.
--
-- Boot models further parts of boot/. Boot.ErrorWrapper is BaseErrorWrapper of
-- boot/error/grpc_error_wrap.go, with the status package as a parameter (Boot.Plain is one).
-- Boot.HttpHeader is http.Header as far as the gateway uses it, and Boot.Gateway is
-- boot/gw_server_options.go: the merges of the options, the metadata that it writes about a
-- request, the header matchers and the error handler. Boot.GrpcWebOptions is boot/grpc_web.go,
-- where a time.Duration is an int64 that wraps around (Boot.Integers). Boot.Entry is Bootstrap, up to the HTTP
-- server, and Interrupt of boot/grpc_entry.go: the statements of Bootstrap (Boot.Entry.Statements)
-- are a list in the code's order, that runs over the options of the gRPC server, the HttpMux and
-- what is around it, GwPort, the servers and the calls made so far; a panic of the HttpMux and
-- ShutdownWithError end it. What a registration function of the gateway returns is given.
-- Boot.Layers is the handler of its HTTP server: middleware/cors, middleware/secure and
-- middleware/csrf around the HttpMux, with the server of gRPC-Web; what a handler makes of a
-- response is all that is kept of it. Boot.Registration is RegisterGrpcEntryYAML over the decoded
-- configuration, with RegisterGrpcEntry and its options: the map of entries that it returns, and
-- what it changes in the global context of rk-entry, which is a parameter. An interceptor of an
-- entry is there its middleware, with the name in its options.
--
-- Not modelled: the copies of google-protobuf and grpc-web in bundle.js, generated Go code, the
-- example programs, the listeners and the log of boot/grpc_entry.go, which are calls of other
-- libraries, and of boot and middleware what is not named above.
pub mod Prelude
pub mod Web
pub mod Proxy
pub mod Middleware
pub mod Boot
