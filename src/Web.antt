-- ===== src/Web.antt =====
-- The browser side of the gRPC-Web example: example/boot/grpc-web. The generated messages
-- (api/gen/v1/greeter_pb.js), the generated stubs (api/gen/v1/greeter_grpc_web_pb.js) and the page
-- script (client.js). The libraries google-protobuf and grpc-web are parameters: Jspb and GrpcWeb.
pub mod Jspb
pub mod Request
pub mod Response
pub mod GrpcWeb
pub mod Client
pub mod Page
pub mod Bundle
mod Plain
mod Tests
