-- ===== src/Lib.antt =====
-- obconnector-go is a database/sql driver for OceanBase, written in Go. database/sql calls methods
-- of a connection; a method interpolates the arguments into the statement, sends a packet, and
-- reads the answer packet by packet. Packets travel in one of three forms: as MySQL packets, inside
-- compressed packets, or inside frames of the OceanBase 2.0 protocol.
--
-- Which file models which part:
--   Common            shared types: Boolean tests, lists, bytes, bits, integers; Outcome (a value, a Go
--                     error, a panic, or a loop out of fuel); State.Method (a method on an object).
--   Protocol.Lenenc   internal/protocol/lenenc.go: length-encoded integers and strings.
--   Protocol.Ob20     internal/protocol/ob20.go: Header (Encode, Decode, PeekIsOB20), Checksum (CRC-16
--                     and CRC-32C, with their tables), ExtraInfo (Encode, ParseOB20ExtraInfo,
--                     BuildFLTExtraInfo).
--   Protocol.Packet   internal/protocol/packet.go: Conn (the state of a PacketConn and its setters),
--                     Read (ReadPacket), Write (WritePacket); Framing is the independent description
--                     of MySQL framing that both are compared with.
--   Protocol.Binary   internal/protocol/binary.go: AppendBinaryTime and ParseBinaryTime; its child Values:
--                     parameters, values and rows.
--   Protocol.Calendar the part of package time that the code relies on: days, clocks, offsets.
--   Protocol.Zone     what package time answers of a location.
--   Protocol.OracleTime  internal/protocol/oracle_time.go: ParseOracleTime.
--   Protocol.Auth     internal/protocol/auth.go: the answers of both authentication methods.
--   Sql.Params        params.go: countPlaceholders, interpolateParams, literal, quoteString.
--   Sql.TimeZone      session_timezone.go: parseSessionTimeZone, resolveSessionTimeZone.
--   Sql.Assignment    session_timezone.go: stripSQLComments, sessionTimeZoneAssignmentFromQuery,
--                     isSessionTimeZoneMutation.
--   Sql.Bulk          bulk.go: quoteIdent, the statement of a bulk insert, BulkInsert.
--   Session.Errors    errors.go, and NegotiateCompression of conn.go.
--   Session.Packets   rows.go: the kinds of packets of a result set, packetStatusFlags,
--                     parseColumnDefinition.
--   Session.Conn      conn.go: the state of a Conn, markProtocolError and its kin, withDeadline; its
--                     child Ok with Session.Variables: handleOK and handleStateChange.
--   Session.Results   rows.go: readQueryResult, readResultFromFirstPacket and the drain loops.
--   Session.TextRow   rows.go: parseTextRowInLocation, textValue, the names and Go types of columns.
--   Session.Rows      rows.go: Rows.Next, Rows.Close, Rows.drain with the lock that open Rows hold.
--   Session.Config    config.go: the record Config, and normalize.
--   Session.Dsn       config.go: applyQuery and getQueryValue. Session.DataSource: ParseDSN with its three
--                     forms.
--   Session.Greeting  conn_handshake.go: parseHandshake and tenantModeFromHandshake.
--   Session.Attributes  preset.go, and connectionAttributes of conn_handshake.go.
--   Session.Login     conn_handshake.go: handshake, sendSSLRequest, buildAuthResponse,
--                     buildHandshakeResponse, handleAuthResult, readAuthSwitchData.
--   Session.Payloads  conn_stmt.go: the payloads of writeExecute and stmtBulkExecLocked.
--   Session.Statements  conn_stmt.go: PrepareContext, stmtExecLocked, readOutParams; setupExtraInfo of
--                     conn.go with context.go. Session.StmtMethods: stmt.go, the methods of Stmt.
--   Session.Requests  conn.go: QueryContext and ExecContext, with the lock.
--   Session.Lifecycle conn.go, tx.go: execLocked, queryLocked, Ping, ResetSession, BeginTx, Close,
--                     closeStmt, Tx.finish; resetStmt of conn_stmt.go; updateSessionTimeZoneFromQuery
--                     and configureSessionTimeZone.
-- The modules named Tests run the definitions and apply the theorems to concrete inputs.
--
-- How state and operations correspond. A PacketConn is a record with the bytes that will arrive,
-- the error that ends them, the bytes sent, a list that says which writes fail, and the fields of
-- the Go struct. A Conn is a record around it. A method is a function from the state to an
-- Outcome and the new state; what it had changed before an error stays changed, as in Go. A
-- method of Conn stands for what it does while it holds the mutex. Where the mutex is part of what is
-- proved it is state: QueryContext and ExecContext of Conn and QueryContext of Stmt lock and unlock a
-- Shared, a Conn with its mutex, and a Reading, the state of Rows, has it as a field. A context is the error of SetDeadline and
-- the value of ctx.Err() at the end; an interrupted read is an error of the stream.
--
-- Bounds and fuel. Numbers are natural numbers; uint8, uint32 and the fields of headers wrap
-- where the code lets them. ReadPacket's loop has fuel for one round more than there are bytes,
-- since each round takes a byte at least; WritePacket's loop for one round more than the payload
-- has bytes. The loop over result sets has the same fuel as ReadPacket's, since each result set
-- takes a packet, and the loops over tracking data have a round for each byte. The loops over
-- columns and rows count down from the bounds of the code. A loop over Rows.Next counts calls,
-- and one call for each byte that is left and one more is enough; the loop over the chunks of a
-- bulk insert has a round for each row. Neither the ten authentication rounds nor the loops over
-- columns and parameters need fuel.
--
-- Parameters: compress/zlib; the renderings of floating-point numbers and of times in literals;
-- strconv.ParseFloat, time.ParseInLocation and strconv.ParseUint; SHA-1 and SHA-256; the
-- operating system's names and environment; the connection behind the TLS handshake; the
-- assignment of an OUT parameter, which goes through reflection; net/url, package net, the rest
-- of strconv and the loading of certificates, for a DSN; and, for BulkInsert, the pool of
-- database/sql. Of a *time.Location, what package time answers of it is a parameter: the offset
-- at an instant, time.Date, and ZoneBounds; the locations of a session are UTC and fixed zones. A
-- time.Time is the fields that its location shows and the offset there. A floating-point number
-- is its bits. What tryNativeBulkInsert does inside Conn.Raw is a parameter, too.
--
-- Not modelled: trace output and the names of capabilities for it; the network and goroutines;
-- dialAndHandshake, which dials the addresses and runs InitSQL; the connector and the
-- registration of the driver (driver.go); and cmd/obping, a program of tests against a live
-- server. Texts are byte lists, and TrimSpace, ToUpper, EqualFold and Fields are those of ASCII.
pub mod Common
pub mod Protocol
pub mod Sql
pub mod Session
